-- ===== src/Router/Slots/Progress.antt =====
-- No request waits for ever: runs end, and nothing but a full semaphore keeps a request waiting.
use go_feather_route.Prelude.{
  ℕ, zero, suc, ◌+◌, ◌*◌, ◌^◌, ◌≤◌, ◌<◌, ◌≡◌, refl, sym, ap, subst, ◌⊎◌, inl, inr, List, [], ◌∷◌,
  ◌++◌, All, length, ltb, ltb→lt, Bool-cases, arith,
}
use go_feather_route.Router.Server.{Server}
use go_feather_route.Router.Slots.{
  Kind, Phase, waiting, holding, left, slots, capacity, take, free, System, Service, Step, admit,
  cancel, release, served, Reached,
}
use go_feather_route.Router.Slots.Bounded.{
  same, same-eq, holders, IsBounded, Step-IsBounded, Reached-IsBounded,
}

-- How many steps are left to a request.
abbrev pub steps_left : Kind × Phase → ℕ
steps_left (k, waiting) = 2
steps_left (k, holding) = 1
steps_left (k, left) = 0

unfoldable pub weight : List (Kind × Phase) → ℕ
weight [] = 0
weight (r ∷ l) = steps_left r + weight l

weight_middle :
    (before after : List (Kind × Phase)) (r : Kind × Phase)
    → weight (before ++ (r ∷ after)) ≡ steps_left r + weight (before ++ after)
unfolding weight
weight_middle [] after r = refl
weight_middle (b ∷ before) after r = omega (arith, weight_middle before after r)

-- A run of a number of steps in which no request arrives.
pub data Run (R : System → System → Type 0) : ℕ → System → System → Type 0 where
  done : {s : System} → Run R 0 s s
  next : {n : ℕ} {s t u : System} → R s t → Run R n t u → Run R (suc n) s u

pub Step-weight :
    (server : Server) (s t : System) → Step server s t → weight t.requests + 1 ≤ weight s.requests
Step-weight server s t (served (admit g before after k room)) =
    omega (arith, weight_middle before after (k, waiting), weight_middle before after (k, holding))
Step-weight server s t (cancel g before after k) =
    omega (arith, weight_middle before after (k, waiting), weight_middle before after (k, left))
Step-weight server s t (served (release g before after k)) =
    omega (arith, weight_middle before after (k, holding), weight_middle before after (k, left))

Run-weight :
    (server : Server) (n : ℕ) (s t : System)
    → Run (Step server) n s t
    → n + weight t.requests ≤ weight s.requests
Run-weight server n s t done = omega arith
Run-weight server n s t (next {t = u} step run) =
    let ih = Run-weight server _ u t run in omega (arith, ih, Step-weight server s u step)

weight-length : (l : List (Kind × Phase)) → weight l ≤ 2 * length l
unfolding weight
weight-length [] = omega arith
weight-length ((k, waiting) ∷ l) = omega (arith, weight-length l)
weight-length ((k, holding) ∷ l) = omega (arith, weight-length l)
weight-length ((k, left) ∷ l) = omega (arith, weight-length l)

abbrev HasLeft : Kind × Phase → Type 0
HasLeft (k, phase) = phase ≡ left

-- A request that has not left.
data Pending (l : List (Kind × Phase)) : Type 0 where
  waits :
      (before after : List (Kind × Phase)) (k : Kind)
      → l ≡ before ++ ((k, waiting) ∷ after)
      → Pending l
  held :
      (before after : List (Kind × Phase)) (k : Kind)
      → l ≡ before ++ ((k, holding) ∷ after)
      → Pending l

Pending-cons : (r : Kind × Phase) {l : List (Kind × Phase)} → Pending l → Pending (r ∷ l)
Pending-cons r (waits before after k e) = waits (r ∷ before) after k (ap (λ x. r ∷ x) e)
Pending-cons r (held before after k e) = held (r ∷ before) after k (ap (λ x. r ∷ x) e)

find : (l : List (Kind × Phase)) → All HasLeft l ⊎ Pending l
find [] = inl tt
find ((k, waiting) ∷ l) = inr (waits [] l k refl)
find ((k, holding) ∷ l) = inr (held [] l k refl)
find ((k, left) ∷ l) = elim (find l) [
  | inl all_left ↦ inl (refl, all_left)
  | inr p ↦ inr (Pending-cons (k, left) p)
]

-- A holder in a list.
Holder : Kind → List (Kind × Phase) → Type 0
Holder j l =
    (before : List (Kind × Phase)) × (after : List (Kind × Phase)) × (l
      ≡ before ++ ((j, holding) ∷ after))

Holder-cons :
    (j : Kind) (r : Kind × Phase) (l : List (Kind × Phase)) → Holder j l → Holder j (r ∷ l)
unfolding Holder
Holder-cons j r l (before, after, e) = (r ∷ before, after, ap (λ x. r ∷ x) e)

-- Where holders are counted there is one.
find-Holder : (j : Kind) (l : List (Kind × Phase)) → 1 ≤ holders j l → Holder j l
unfolding holders Holder
find-Holder j [] h = absurd (omega arith)
find-Holder j ((k, waiting) ∷ l) h = Holder-cons j (k, waiting) l (find-Holder j l (omega arith))
find-Holder j ((k, left) ∷ l) h = Holder-cons j (k, left) l (find-Holder j l (omega arith))
find-Holder j ((k, holding) ∷ l) h = elim (Bool-cases (same j k)) [
  | inl own ↦ ([], l, ap (λ i. (i, holding) ∷ l) (sym (same-eq j k own)))
  | inr other ↦ Holder-cons j (k, holding) l (find-Holder j l (omega (arith, rw other at h)))
]

module _ (server : Server) (fits : (k : Kind) → capacity server k < 2 ^ 64)
    (open_slots : (k : Kind) → 1 ≤ capacity server k) where
  -- What one service leads to.
  record Served (s : System) : Type 0 where
    next_state : System
    step : Service server s next_state
    lighter : weight next_state.requests + 1 ≤ weight s.requests
    bounded : (k : Kind) → IsBounded server next_state k

  Service-Served :
      (s t : System) → ((k : Kind) → IsBounded server s k) → Service server s t → Served s
  Service-Served s t b step = record {
    next_state = t;
    step = step;
    lighter = Step-weight server s t (served step);
    bounded = λ k. Step-IsBounded server fits s t k (served step) (b k);
  }

  release_one :
      (s : System) (before after : List (Kind × Phase)) (k : Kind)
      → ((k : Kind) → IsBounded server s k)
      → s.requests ≡ before ++ ((k, holding) ∷ after)
      → Served s
  release_one s before after k b e =
      let t : System = record {
        gauges = free k s.gauges;
        requests = before ++ ((k, left) ∷ after);
      } in
      Service-Served s t b (
        subst (λ l. Service server (record { gauges = s.gauges; requests = l }) t) (sym e)
          (release s.gauges before after k))

  serve_one : (s : System) → ((k : Kind) → IsBounded server s k) → Pending s.requests → Served s
  unfolding Holder
  serve_one s b (held before after k e) = release_one s before after k b e
  serve_one s b (waits before after k e) =
      elim (Bool-cases (ltb (slots k s.gauges) (capacity server k))) [
        | inl room ↦
            let t : System = record {
              gauges = take k s.gauges;
              requests = before ++ ((k, holding) ∷ after);
            } in
            Service-Served s t b (
              subst (λ l. Service server (record { gauges = s.gauges; requests = l }) t) (sym e)
                (admit s.gauges before after k (ltb→lt _ _ room)))
        | inr full ↦
            let count = (b k).counted in
            let (before', after', e') =
              find-Holder k s.requests (ground (arith, open_slots k, count)) in
            release_one s before' after' k b e'
      ]

  -- The services from a state on until every request has left.
  Drained : System → Type 0
  Drained s = (n : ℕ) × (t : System) × Run (Service server) n s t × All HasLeft t.requests

  drain :
      (fuel : ℕ) (s : System)
      → weight s.requests ≤ fuel
      → ((k : Kind) → IsBounded server s k)
      → Drained s
  unfolding Drained
  drain zero s h b = elim (find s.requests) [
    | inl all_left ↦ (0, s, done, all_left)
    | inr p ↦ let lighter = (serve_one s b p).lighter in absurd (omega (arith, lighter))
  ]
  drain (suc fuel) s h b = elim (find s.requests) [
    | inl all_left ↦ (0, s, done, all_left)
    | inr p ↦
        let one = serve_one s b p in
        let lighter = one.lighter in
        let (n, t, run, all_left) =
          drain fuel one.next_state (omega (arith, lighter)) one.bounded in
        (suc n, t, next one.step run, all_left)
  ]

  -- Where every semaphore has a slot and the capacities fit a uint64, no state that the server reaches is
  -- stuck: without any request
  -- being canceled, each of those in it can be served and leave.
  pub Reached-drains :
      (s : System)
      → Reached server s
      → (n : ℕ) × (t : System) × Run (Service server) n s t
        × All (λ (r : Kind × Phase). r.1 ≡ left) t.requests
  unfolding Drained
  Reached-drains s r =
      drain (weight s.requests) s (omega arith) (λ k. Reached-IsBounded server fits s k r)

  Run-IsBounded :
      {n : ℕ} {s t : System}
      → Run (Step server) n s t
      → ((k : Kind) → IsBounded server s k)
      → (k : Kind) → IsBounded server t k
  Run-IsBounded {s} done b = b
  Run-IsBounded {s} (next {t = u} step run) b =
      Run-IsBounded run (λ k. Step-IsBounded server fits s u k step (b k))

  -- Where every semaphore has a slot, the capacities fit a uint64 and no request arrives any more, the
  -- requests of a state that the server reaches come to an end whatever the order in which slots are taken and given up and waits
  -- canceled: a run takes at most two steps for each request, and where no step is left, which no full
  -- semaphore brings about, every request has left.
  pub Run-drains :
      (n : ℕ) (s t : System)
      → Reached server s
      → Run (Step server) n s t
      → ((u : System) → Step server t u → ⊥)
      → (n ≤ 2 * length s.requests) × All (λ (r : Kind × Phase). r.1 ≡ left) t.requests
  Run-drains n s t reached run ended = (
    omega (arith, Run-weight server n s t run, weight-length s.requests),
    elim (find t.requests) [
      | inl all_left ↦ all_left
      | inr p ↦
          let b = Run-IsBounded run (λ k. Reached-IsBounded server fits s k reached) in
          absurd (ended _ (served (serve_one t b p).step))
    ],
  )
