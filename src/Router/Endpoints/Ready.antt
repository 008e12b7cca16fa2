-- ===== src/Router/Endpoints/Ready.antt =====
-- What `ready` and `modelStatus` say of the same models.
use mathlib.Core.List.{Memᴰ}
use go_feather_route.Prelude.{
  ℕ, ◌==◌, ◌≡◌, ◌≢◌, ◌↔◌, refl, ap, inl, inr, Bool, true, false, not, ◌&&◌, none, List, [], ◌∷◌,
  Bytes, codes, is_empty, length, Bool-cases, Option-cases, arith,
}
use go_feather_route.Prelude.Dict.{lookup, get_or, bytes_eq}
use go_feather_route.Gateway.{models, provider_for_model}
use go_feather_route.Router.Server.{Server}
use go_feather_route.Router.Handling.{Payload, json, text, fields, Reply, json_reply}
use go_feather_route.Router.Endpoints.{
  has_credentials, is_ready_model, any_ready, ready, credential_status, model_document,
  model_status,
}

-- `modelStatus` answers that the model is configured.
abbrev pub IsConfigured : Server → Bytes → Type 0
IsConfigured server model =
    (provider : Bytes) × (model_status server model
      ≡ json_reply 200 (model_document model provider (codes "configured")))

-- Some listed alias that is not empty is.
abbrev pub HasConfigured : Server → Type 0
HasConfigured server =
    (model : Bytes) × Memᴰ model (models server.routes) × (model ≢ []) × IsConfigured server model

-- Some model of a list is one that `ready` accepts.
abbrev Accepts : Server → List Bytes → Type 0
Accepts server l = (model : Bytes) × Memᴰ model l × (is_ready_model server model ≡ true)

any_ready-Accepts :
    (server : Server) (l : List Bytes) → any_ready server l ≡ true → Accepts server l
unfolding any_ready
any_ready-Accepts server [] h = absurd (cc h)
any_ready-Accepts server (model ∷ l) h = elim (Bool-cases (is_ready_model server model)) [
  | inl here ↦ (model, Memᴰ.head refl, here)
  | inr later ↦
      let (other, at, accepted) = any_ready-Accepts server l (rw later at h) in
      (other, Memᴰ.tail at, accepted)
]

Accepts-any_ready :
    (server : Server) (l : List Bytes) (model : Bytes)
    → Memᴰ model l
    → is_ready_model server model ≡ true
    → any_ready server l ≡ true
unfolding any_ready
Accepts-any_ready server [] model at h = elim at [ ]
Accepts-any_ready server (other ∷ l) model (Memᴰ.head e) h = rw (← e, h) refl
Accepts-any_ready server (other ∷ l) model (Memᴰ.tail at) h =
    elim (Bool-cases (is_ready_model server other)) [
      | inl here ↦ rw here refl
      | inr later ↦ rw later (Accepts-any_ready server l model at h)
    ]

differ : (a b : ℕ) → (a == b) ≡ false → a ≡ b → ⊥
differ a b e h = ground arith

not_empty :
    (model : Bytes) (b : Bool) → (b && not (is_empty model)) ≡ true → (b ≡ true) × (model ≢ [])
not_empty [] b h = absurd (ground arith)
not_empty (c ∷ s) b h = (ground arith, λ e. cc)

-- The status that a payload tells, where it is the document of `modelStatus`.
told : Payload → Bytes
told (json (fields (_ ∷ _ ∷ _ ∷ (_, text status) ∷ []))) = status
told _ = []

module _ (server : Server) where
  ready-IsConfigured :
      lookup [] server.config.providers ≡ none
      → (model : Bytes) → is_ready_model server model ≡ true
      → (model ≢ []) × IsConfigured server model
  unfolding is_ready_model model_status credential_status has_credentials get_or
  ready-IsConfigured unnamed model h =
      elim (Option-cases (provider_for_model server.routes model)) [
        | inl e ↦ absurd (cc (rw (e, unnamed) at h))
        | inr (provider, e) ↦
            let (known, named) = not_empty model _ (rw e at h) in
            (named, (provider, rw (e, model_status) (rw known refl)))
      ]

  IsConfigured-ready :
      (model : Bytes) → model ≢ [] → IsConfigured server model → is_ready_model server model ≡ true
  unfolding is_ready_model model_status credential_status get_or told
  IsConfigured-ready [] named configured = absurd (named refl)
  IsConfigured-ready (c ∷ s) named (provider, h) =
      elim (Option-cases (provider_for_model server.routes (c ∷ s))) [
        | inl e ↦
            absurd (differ 404 200 refl (ap (λ (r : Reply). r.status) (rw (e, model_status) at h)))
        | inr (p, e) ↦ elim (Bool-cases (has_credentials (lookup p server.config.providers))) [
          | inl known ↦ rw e (rw known refl)
          | inr unknown ↦ absurd (
              differ 19 10 refl (
                ap (λ (r : Reply). length (told r.payload))
                  (rw (unknown) at (rw (e, model_status) at h))))
        ]
      ]

  any_ready-HasConfigured :
      lookup [] server.config.providers ≡ none
      → any_ready server (models server.routes) ≡ true
      → HasConfigured server
  any_ready-HasConfigured unnamed h =
      let (model, at, accepted) = any_ready-Accepts server (models server.routes) h in
      let (named, configured) = ready-IsConfigured unnamed model accepted in
      (model, at, named, configured)

  not-HasConfigured :
      lookup [] server.config.providers ≡ none
      → any_ready server (models server.routes) ≡ false
      → HasConfigured server
      → ⊥
  not-HasConfigured unnamed h (model, at, named, configured) = cc (
      Accepts-any_ready server (models server.routes) model at
        (IsConfigured-ready model named configured))

  -- Where no provider has the empty name, `/ready` answers 200 exactly where some listed alias that is
  -- not empty has the status "configured" at `/status/models/{model}`, and 503 exactly where none has.
  pub ready_iff :
      lookup [] server.config.providers ≡ none
      → (((ready server).status ≡ 200) ↔ HasConfigured server)
        × (((ready server).status ≡ 503) ↔ (HasConfigured server → ⊥))
  unfolding ready
  ready_iff unnamed = elim (Bool-cases (any_ready server (models server.routes))) [
    | inl some_ready ↦
        let one = any_ready-HasConfigured unnamed some_ready in
        (
          (λ _. one, λ _. rw some_ready refl),
          (λ h. absurd (differ 200 503 refl (rw some_ready at h)), λ h. absurd (h one)),
        )
    | inr degraded ↦
        let no_one = not-HasConfigured unnamed degraded in
        (
          (λ h. absurd (differ 503 200 refl (rw degraded at h)), λ p. absurd (no_one p)),
          (λ _. no_one, λ _. rw degraded refl),
        )
  ]
