-- ===== src/Provider/Loop.antt =====
-- The loop over the attempts, `attempt_loop`, on every branch.
use go_feather_route.Prelude.{
  ◌≡◌, refl, ◌⊎◌, inl, inr, Bool, true, false, none, some, [], ◌∷◌, Bytes, Bool-cases, Option-cases,
}
use go_feather_route.Wire.{Cause}
use go_feather_route.Provider.{
  Response, Result, ok, err, Failure, wait_failed, World, HttpRequest, to_response, is_final_status,
  retry_reason_for_status,
}
use go_feather_route.Provider.Call.{Traced, and_before, attempt_loop}
use go_feather_route.Provider.Wait.{wait_for_retry}

-- How a call that prepared its request may end: with the requests that it sent, it has failed or
-- has the answer of its last attempt.
pub data Ends (world : World) (request : HttpRequest) (allowed : Bool) : Traced → Type 0 where
  broke_first :
      (e : Failure)
      → to_response (world.transport 0 request) ≡ err e
      → Ends world request allowed (err e, request ∷ [])
  answered_first :
      (raw : Response)
      → to_response (world.transport 0 request) ≡ ok raw
      → (is_final_status raw.status_code ≡ true) ⊎ (allowed ≡ false)
      → Ends world request allowed
          (ok (record raw { attempts = 1; retry_reason = [] }), request ∷ [])
  gave_up :
      (cause : Cause) (raw : Response)
      → to_response (world.transport 0 request) ≡ ok raw
      → is_final_status raw.status_code ≡ false
      → allowed ≡ true
      → Ends world request allowed (err (wait_failed cause), request ∷ [])
  broke_second :
      (e : Failure) (raw : Response)
      → to_response (world.transport 0 request) ≡ ok raw
      → is_final_status raw.status_code ≡ false
      → allowed ≡ true
      → Ends world request allowed (err e, request ∷ request ∷ [])
  answered_second :
      (raw raw' : Response)
      → to_response (world.transport 0 request) ≡ ok raw
      → to_response (world.transport 1 request) ≡ ok raw'
      → is_final_status raw.status_code ≡ false
      → allowed ≡ true
      → Ends world request allowed (
        ok (record raw' { attempts = 2; retry_reason = retry_reason_for_status raw.status_code }),
        request ∷ request ∷ [],
      )

pub Result-cases {ℓ} :
    {A : Type ℓ} (r : Result A) → ((e : Failure) × (r ≡ err e)) ⊎ ((a : A) × (r ≡ ok a))
Result-cases (err e) = inl (e, refl)
Result-cases (ok a) = inr (a, refl)

module _ (world : World) (request : HttpRequest) (allowed : Bool) where
  second_broken :
      (reason : Bytes) (e : Failure)
      → to_response (world.transport 1 request) ≡ err e
      → attempt_loop world (ok request) allowed 1 1 reason ≡ (err e, request ∷ [])
  unfolding attempt_loop
  second_broken reason e h = rw (h, attempt_loop)

  second_answered :
      (reason : Bytes) (raw : Response)
      → to_response (world.transport 1 request) ≡ ok raw
      → attempt_loop world (ok request) allowed 1 1 reason
        ≡ (ok (record raw { attempts = 2; retry_reason = reason }), request ∷ [])
  unfolding attempt_loop
  second_answered reason raw h = elim (Bool-cases (is_final_status raw.status_code)) [
    | inl final ↦ rw (h, attempt_loop) (rw final)
    | inr again ↦ rw (h, attempt_loop) (rw again)
  ]

  loop_second :
      (raw : Response)
      → to_response (world.transport 0 request) ≡ ok raw
      → is_final_status raw.status_code ≡ false
      → allowed ≡ true
      → wait_for_retry world raw.header 0 ≡ none
      → attempt_loop world (ok request) allowed 2 0 []
        ≡ and_before request
            (attempt_loop world (ok request) allowed 1 1 (retry_reason_for_status raw.status_code))
  unfolding attempt_loop
  loop_second raw answer again yes_allowed waited =
      rw (answer, attempt_loop) (rw (again, yes_allowed) (rw (waited, attempt_loop)))

  pub loop_broken :
      (e : Failure)
      → to_response (world.transport 0 request) ≡ err e
      → attempt_loop world (ok request) allowed 2 0 [] ≡ (err e, request ∷ [])
  unfolding attempt_loop
  loop_broken e h = rw (h, attempt_loop)

  loop_final :
      (raw : Response)
      → to_response (world.transport 0 request) ≡ ok raw
      → (is_final_status raw.status_code ≡ true) ⊎ (allowed ≡ false)
      → attempt_loop world (ok request) allowed 2 0 []
        ≡ (ok (record raw { attempts = 1; retry_reason = [] }), request ∷ [])
  unfolding attempt_loop
  loop_final raw h (inl final) = rw (h, attempt_loop) (rw final)
  loop_final raw h (inr once) = elim (Bool-cases (is_final_status raw.status_code)) [
    | inl final ↦ rw (h, attempt_loop) (rw final)
    | inr again ↦ rw (h, attempt_loop) (rw (again, once))
  ]

  loop_gave_up :
      (raw : Response) (cause : Cause)
      → to_response (world.transport 0 request) ≡ ok raw
      → is_final_status raw.status_code ≡ false
      → allowed ≡ true
      → wait_for_retry world raw.header 0 ≡ some cause
      → attempt_loop world (ok request) allowed 2 0 [] ≡ (err (wait_failed cause), request ∷ [])
  unfolding attempt_loop
  loop_gave_up raw cause h again yes_allowed ended =
      rw (h, attempt_loop) (rw (again, yes_allowed) (rw ended))

  after_wait :
      (raw : Response)
      → to_response (world.transport 0 request) ≡ ok raw
      → is_final_status raw.status_code ≡ false
      → allowed ≡ true
      → wait_for_retry world raw.header 0 ≡ none
      → Ends world request allowed (attempt_loop world (ok request) allowed 2 0 [])
  after_wait raw h again yes_allowed waited =
      let reason = retry_reason_for_status raw.status_code in
      elim (Result-cases (to_response (world.transport 1 request))) [
        | inl (e, broke) ↦
            rw (loop_second raw h again yes_allowed waited, second_broken reason e broke)
              (broke_second e raw h again yes_allowed)
        | inr (raw', answer) ↦
            rw (loop_second raw h again yes_allowed waited, second_answered reason raw' answer)
              (answered_second raw raw' h answer again yes_allowed)
      ]

  not_final :
      (raw : Response)
      → to_response (world.transport 0 request) ≡ ok raw
      → is_final_status raw.status_code ≡ false
      → Ends world request allowed (attempt_loop world (ok request) allowed 2 0 [])
  not_final raw h again = elim (Bool-cases allowed) [
    | inr once ↦ rw (loop_final raw h (inr once)) (answered_first raw h (inr once))
    | inl yes_allowed ↦ elim (Option-cases (wait_for_retry world raw.header 0)) [
      | inl waited ↦ after_wait raw h again yes_allowed waited
      | inr (cause, ended) ↦
          rw (loop_gave_up raw cause h again yes_allowed ended)
            (gave_up cause raw h again yes_allowed)
    ]
  ]

  pub loop-Ends : Ends world request allowed (attempt_loop world (ok request) allowed 2 0 [])
  loop-Ends = elim (Result-cases (to_response (world.transport 0 request))) [
    | inl (e, broke) ↦ rw (loop_broken e broke) (broke_first e broke)
    | inr (raw, h) ↦ elim (Bool-cases (is_final_status raw.status_code)) [
      | inl final ↦ rw (loop_final raw h (inl final)) (answered_first raw h (inl final))
      | inr again ↦ not_final raw h again
    ]
  ]
