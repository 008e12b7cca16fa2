-- ===== src/Router/Slots/Bounded.antt =====
-- No more holders than slots.
use go_feather_route.Prelude.{
  ℕ, ◌+◌, ◌^◌, ◌≤◌, ◌<◌, ◌≡◌, refl, ap, ◌∙◌, inl, inr, Bool, true, false, List, [], ◌∷◌, ◌++◌,
  Bool-cases, arith, if◌then◌else◌,
}
use go_feather_route.Prelude.Int.{add64, minus_one}
use go_feather_route.Router.Server.{Server, Gauges}
use go_feather_route.Router.Slots.{
  Kind, chat_kind, stream_kind, embedding_kind, Phase, waiting, holding, left, slots, capacity,
  take, free, System, Step, admit, cancel, release, served, Reached, fresh, arrive, goes_on,
}

abbrev pub same : Kind → Kind → Bool
same chat_kind chat_kind = true
same stream_kind stream_kind = true
same embedding_kind embedding_kind = true
same _ _ = false

pub same-eq : (j k : Kind) → same j k ≡ true → j ≡ k
same-eq chat_kind chat_kind h = refl
same-eq stream_kind stream_kind h = refl
same-eq embedding_kind embedding_kind h = refl
same-eq chat_kind stream_kind h = absurd (cc h)
same-eq chat_kind embedding_kind h = absurd (cc h)
same-eq stream_kind chat_kind h = absurd (cc h)
same-eq stream_kind embedding_kind h = absurd (cc h)
same-eq embedding_kind chat_kind h = absurd (cc h)
same-eq embedding_kind stream_kind h = absurd (cc h)

-- One for a holder of the kind.
abbrev pub holds : Kind → Kind × Phase → ℕ
holds j (k, holding) = if same j k then 1 else 0
holds j _ = 0

unfoldable pub holders : Kind → List (Kind × Phase) → ℕ
holders j [] = 0
holders j (r ∷ l) = holds j r + holders j l

pub holders_middle :
    (j : Kind) (before after : List (Kind × Phase)) (r : Kind × Phase)
    → holders j (before ++ (r ∷ after)) ≡ holds j r + holders j (before ++ after)
unfolding holders
holders_middle j [] after r = refl
holders_middle j (b ∷ before) after r = omega (arith, holders_middle j before after r)

slots-take :
    (j k : Kind) (g : Gauges)
    → slots j (take k g) ≡ (if same j k then add64 (slots j g) 1 else slots j g)
slots-take chat_kind chat_kind g = refl
slots-take stream_kind stream_kind g = refl
slots-take embedding_kind embedding_kind g = refl
slots-take chat_kind stream_kind g = refl
slots-take chat_kind embedding_kind g = refl
slots-take stream_kind chat_kind g = refl
slots-take stream_kind embedding_kind g = refl
slots-take embedding_kind chat_kind g = refl
slots-take embedding_kind stream_kind g = refl

slots-free :
    (j k : Kind) (g : Gauges)
    → slots j (free k g) ≡ (if same j k then add64 (slots j g) minus_one else slots j g)
slots-free chat_kind chat_kind g = refl
slots-free stream_kind stream_kind g = refl
slots-free embedding_kind embedding_kind g = refl
slots-free chat_kind stream_kind g = refl
slots-free chat_kind embedding_kind g = refl
slots-free stream_kind chat_kind g = refl
slots-free stream_kind embedding_kind g = refl
slots-free embedding_kind chat_kind g = refl
slots-free embedding_kind stream_kind g = refl

-- The slots in use of a kind are its holders, and no more than the capacity.
pub record IsBounded (server : Server) (s : System) (j : Kind) : Type 0 where
  pub counted : slots j s.gauges ≡ holders j s.requests
  pub bounded : slots j s.gauges ≤ capacity server j

-- One request changes its phase, and the slots in use follow.
moved-IsBounded :
    (server : Server) (g g' : Gauges) (before after : List (Kind × Phase)) (r r' : Kind × Phase)
    (j : Kind)
    → IsBounded server (record { gauges = g; requests = before ++ (r ∷ after) }) j
    → slots j g' + holds j r ≡ slots j g + holds j r'
    → slots j g' ≤ capacity server j
    → IsBounded server (record { gauges = g'; requests = before ++ (r' ∷ after) }) j
moved-IsBounded server g g' before after r r' j b moves below = record {
  counted =
      let count = b.counted in
      omega (arith, holders_middle j before after r, holders_middle j before after r');
  bounded = below;
}

-- The gauge after one more holder, and after one less.
raised : (n cap : ℕ) → n < cap → cap < 2 ^ 64 → add64 n 1 ≡ n + 1
unfolding add64
raised n cap h k = omega arith

lowered : (n h : ℕ) → n ≡ 1 + h → n < 2 ^ 64 → add64 n minus_one + 1 ≡ n
unfolding add64
lowered n h e k = omega arith

module _ (server : Server) (fits : (k : Kind) → capacity server k < 2 ^ 64) where
  admit-IsBounded :
      (g : Gauges) (before after : List (Kind × Phase)) (k j : Kind)
      → slots k g < capacity server k
      → IsBounded server (record { gauges = g; requests = before ++ ((k, waiting) ∷ after) }) j
      → IsBounded server
          (record { gauges = take k g; requests = before ++ ((k, holding) ∷ after) })
          j
  admit-IsBounded g before after k j room b =
      let below = b.bounded in
      elim (Bool-cases (same j k)) [
        | inl own ↦
            let here : slots j g < capacity server j = rw (same-eq j k own) room in
            let next : slots j (take k g) ≡ slots j g + 1 =
              slots-take j k g ∙ rw own (raised (slots j g) (capacity server j) here (fits j)) in
            moved-IsBounded server g (take k g) before after (k, waiting) (k, holding) j b
              (rw own (omega (arith, next))) (omega (arith, next, here))
        | inr other ↦
            let next : slots j (take k g) ≡ slots j g = slots-take j k g ∙ rw other refl in
            moved-IsBounded server g (take k g) before after (k, waiting) (k, holding) j b
              (rw other (omega (arith, next))) (omega (arith, next, below))
      ]

  release-IsBounded :
      (g : Gauges) (before after : List (Kind × Phase)) (k j : Kind)
      → IsBounded server (record { gauges = g; requests = before ++ ((k, holding) ∷ after) }) j
      → IsBounded server (record { gauges = free k g; requests = before ++ ((k, left) ∷ after) }) j
  release-IsBounded g before after k j b =
      let below = b.bounded in
      elim (Bool-cases (same j k)) [
        | inl own ↦
            let count : slots j g ≡ 1 + holders j (before ++ after) =
              b.counted ∙ holders_middle j before after (k, holding) ∙ rw own refl in
            let next : slots j (free k g) + 1 ≡ slots j g =
              ap (λ n. n + 1) (slots-free j k g)
              ∙ rw own (
                  lowered (slots j g) (holders j (before ++ after)) count
                    (omega (arith, below, fits j))) in
            moved-IsBounded server g (free k g) before after (k, holding) (k, left) j b
              (rw own (omega (arith, next))) (omega (arith, next, below))
        | inr other ↦
            let next : slots j (free k g) ≡ slots j g = slots-free j k g ∙ rw other refl in
            moved-IsBounded server g (free k g) before after (k, holding) (k, left) j b
              (rw other (omega (arith, next))) (omega (arith, next, below))
      ]

  pub Step-IsBounded :
      (s t : System) (j : Kind) → Step server s t → IsBounded server s j → IsBounded server t j
  Step-IsBounded s t j (served (admit g before after k room)) b =
      admit-IsBounded g before after k j room b
  Step-IsBounded s t j (cancel g before after k) b =
      let below = b.bounded in
      moved-IsBounded server g g before after (k, waiting) (k, left) j b refl below
  Step-IsBounded s t j (served (release g before after k)) b =
      release-IsBounded g before after k j b

  -- However requests arrive, wait, give up and leave, the slots in use of each semaphore are exactly
  -- the requests that hold one, and never more than its capacity.
  pub Reached-IsBounded : (s : System) (j : Kind) → Reached server s → IsBounded server s j
  unfolding holders
  Reached-IsBounded s chat_kind fresh = record { counted = refl; bounded = omega arith }
  Reached-IsBounded s stream_kind fresh = record { counted = refl; bounded = omega arith }
  Reached-IsBounded s embedding_kind fresh = record { counted = refl; bounded = omega arith }
  Reached-IsBounded s j (arrive k r) =
      let b = Reached-IsBounded _ j r in
      let count = b.counted in record { counted = omega (arith, count); bounded = b.bounded }
  Reached-IsBounded s j (goes_on r step) = Step-IsBounded _ _ j step (Reached-IsBounded _ j r)
