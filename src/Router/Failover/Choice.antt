-- ===== src/Router/Failover/Choice.antt =====
-- Which client the loop chooses, and whom it marks.
use go_feather_route.Prelude.{
  ℕ, ◌+◌, ◌≡◌, ◌≢◌, refl, ◌⊎◌, inl, inr, true, false, List, [], ◌∷◌, ltb, if◌then◌else◌, Bool-cases,
}
use go_feather_route.Provider.{ClientApi, Response, Failure, ok, err, Outcome}
use go_feather_route.Provider.Loop.{Result-cases}
use go_feather_route.Router.Health.{Health, mark_provider_failure, mark_provider_success}
use go_feather_route.Router.Failover.{
  retryable_upstream_status, Routed, nothing, broken, chosen, is_last, failover,
}

module _ (call : ℕ → ClientApi → Outcome) (now : ℕ → ℕ) where
  -- A run from one client to the next: each client before the last that is called answered with a
  -- retryable status and is marked as failed, in order. A call's error ends the run at once and marks
  -- nobody; so does an answer that is not retryable, or that of the last client, and a status below
  -- 400 marks a success.
  pub data Run : ℕ → List ClientApi → Health → Routed → Health → Type 0 where
    none_left : (index : ℕ) (h : Health) → Run index [] h nothing h
    call_error :
        (index : ℕ) (client : ClientApi) (rest : List ClientApi) (h : Health) (e : Failure)
        → call index client ≡ err e
        → Run index (client ∷ rest) h (broken e) h
    answer :
        (index : ℕ) (client : ClientApi) (rest : List ClientApi) (h : Health) (r : Response)
        → call index client ≡ ok r
        → (retryable_upstream_status r.status_code ≡ false) ⊎ (rest ≡ [])
        → Run index
            (client ∷ rest)
            h
            (chosen r client index)
            (if ltb r.status_code 400 then mark_provider_success client.provider_name h else h)
    pass_over :
        (index : ℕ) (client : ClientApi) (rest : List ClientApi) (h : Health) (r : Response)
        {routed : Routed} {h' : Health}
        → call index client ≡ ok r
        → retryable_upstream_status r.status_code ≡ true
        → rest ≢ []
        → Run (index + 1) rest (mark_provider_failure (now index) client.provider_name h) routed h'
        → Run index (client ∷ rest) h routed h'

  last-nil : (l : List ClientApi) → is_last l ≡ true → l ≡ []
  last-nil [] h = refl
  last-nil (c ∷ l) h = cc

  last-ne_nil : (l : List ClientApi) → is_last l ≡ false → l ≢ []
  last-ne_nil [] h = cc
  last-ne_nil (c ∷ l) h = λ p. cc

  -- Every failover is such a run.
  pub failover-Run :
      (index : ℕ) (clients : List ClientApi) (h : Health)
      → Run index clients h
          (failover call now index clients h).0
          (failover call now index clients h).1
  unfolding failover
  failover-Run index [] h = none_left index h
  failover-Run index (client ∷ rest) h = elim (Result-cases (call index client)) [
    | inl (e, broke) ↦ rw (broke, failover) (call_error index client rest h e broke)
    | inr (r, answered) ↦ elim (Bool-cases (retryable_upstream_status r.status_code)) [
      | inr fine ↦
          rw (answered, failover) (rw fine (answer index client rest h r answered (inl fine)))
      | inl again ↦ elim (Bool-cases (is_last rest)) [
        | inl last ↦
            rw (answered, failover)
              (rw (again, last) (answer index client rest h r answered (inr (last-nil rest last))))
        | inr more ↦
            rw (answered, failover)
              (rw (again, more)
                (pass_over index client rest h r answered again (last-ne_nil rest more) (
                  failover-Run (index + 1) rest
                    (mark_provider_failure (now index) client.provider_name h))))
      ]
    ]
  ]
