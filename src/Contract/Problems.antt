-- ===== src/Contract/Problems.antt =====
-- The errors that a request or an upstream's answer can have: one constructor for each message.
use go_feather_route.Prelude.Int.{ℤ}
use go_feather_route.Prelude.{ℕ, Option, none, some}

pub data Problem : Type 0 where
  invalid_chat_json missing_model invalid_embedding_json missing_input : Problem
  invalid_input empty_batch invalid_chat_response empty_chat_response : Problem
  invalid_embedding_response missing_data invalid_data marshal_failed : Problem
  wrong_count : (got expected : ℕ) → Problem
  invalid_index duplicate_index empty_embedding non_finite_value : ℤ → Problem
  inconsistent_dimensions : Problem

pub data Checked {ℓ} (A : Type ℓ) : Type ℓ where
  good : A → Checked A
  bad : Problem → Checked A

infixl 5 ◌>>=◌
abbrev pub ◌>>=◌ {ℓ κ} : {A : Type ℓ} {B : Type κ} → Checked A → (A → Checked B) → Checked B
good a >>= f = f a
bad p >>= f = bad p

abbrev pub or_bad {ℓ} : {A : Type ℓ} → Problem → (o : Option A) → Checked A
or_bad p none = bad p
or_bad p (some a) = good a
