-- ===== src/Batch/Validity.antt =====
-- The validity of a request, and its ids.
use faabric.Prelude.{
  ◌≡◌, ◌≢◌, ◌⊎◌, ◌↔◌, inl, inr, refl, true, false, ◌&&◌, List, [], ◌∷◌, map, length, arith,
  same_name_iff, ◌==◌,
}
use faabric.Prelude.Int.{ℤ, pos, int_eq, int_key}
use faabric.Batch.{
  Message, BatchExecuteRequest, is_malformed, no_malformed, is_batch_exec_request_valid,
  update_batch_exec_app_id,
}

-- Each message is for the user and the app of the request and names a function.
abbrev pub WellFormed : BatchExecuteRequest → List Message → Type 0
WellFormed ber [] = Unit {0}
WellFormed ber (msg ∷ msgs) =
    ((msg.user ≡ ber.user) × (msg.function ≢ "") × (msg.app_id ≡ ber.app_id)) × WellFormed ber msgs

is_malformed_lem :
    (ber : BatchExecuteRequest) (msg : Message)
    → (is_malformed ber msg ≡ false)
      ↔ ((msg.user ≡ ber.user) × (msg.function ≢ "") × (msg.app_id ≡ ber.app_id))
unfolding is_malformed
is_malformed_lem ber msg = (
  (λ e. (
    (same_name_iff msg.user ber.user).0 (ground (arith, e)),
    (λ q. ground (arith, e, (same_name_iff msg.function "").1 q)),
    (int_key.beq_iff msg.app_id ber.app_id).0 (ground (arith, e)),
  )),
  λ (u, f, i). ground (
    arith,
    (same_name_iff msg.user ber.user).1 u,
    (same_name_iff msg.function "").0,
    f,
    (int_key.beq_iff msg.app_id ber.app_id).1 i,
  ),
)

no_malformed_lem :
    (ber : BatchExecuteRequest) (msgs : List Message)
    → (no_malformed ber msgs ≡ true) ↔ WellFormed ber msgs
unfolding no_malformed
no_malformed_lem ber [] = ((λ e. tt), λ t. refl)
no_malformed_lem ber (msg ∷ msgs) = (
  (λ e. (
    (is_malformed_lem ber msg).0 (ground (arith, e)),
    (no_malformed_lem ber msgs).0 (ground (arith, e)),
  )),
  λ (w, ws). ground (arith, (is_malformed_lem ber msg).1 w, (no_malformed_lem ber msgs).1 ws),
)

has_work_lem :
    (msgs : List Message) (id : ℤ)
    → ((length msgs == 0 && int_eq id (pos 0)) ≡ false) ↔ ((msgs ≢ []) ⊎ (id ≢ pos 0))
has_work_lem [] id = (
  (λ e. inr (λ q. ground (arith, e, (int_key.beq_iff id (pos 0)).1 q))),
  elim [ inl n ↦ absurd (n refl) | inr n ↦ ground (arith, (int_key.beq_iff id (pos 0)).0, n) ],
)
has_work_lem (msg ∷ msgs) id = ((λ e. inl (λ q. cc)), λ h. ground arith)

-- A request is valid exactly when it has an app id or messages, it has a user and a function, and
-- each of its messages is for that user and that app and names a function.
pub is_batch_exec_request_valid_lem :
    (ber : BatchExecuteRequest)
    → (is_batch_exec_request_valid ber ≡ true) ↔ (
        ((ber.messages ≢ []) ⊎ (ber.app_id ≢ pos 0))
        × (ber.user ≢ "")
        × (ber.function ≢ "")
        × WellFormed ber ber.messages)
unfolding is_batch_exec_request_valid
is_batch_exec_request_valid_lem ber = (
  (λ e. (
    (has_work_lem ber.messages ber.app_id).0 (ground (arith, e)),
    (λ q. ground (arith, e, (same_name_iff ber.user "").1 q)),
    (λ q. ground (arith, e, (same_name_iff ber.function "").1 q)),
    (no_malformed_lem ber ber.messages).0 (ground (arith, e)),
  )),
  λ (w, u, f, ws). ground (
    arith,
    (has_work_lem ber.messages ber.app_id).1 w,
    (same_name_iff ber.user "").0,
    u,
    (same_name_iff ber.function "").0,
    f,
    (no_malformed_lem ber ber.messages).1 ws,
  ),
)

abbrev set_app_id : ℤ → Message → Message
set_app_id id msg = record msg { app_id = id }

WellFormed-set_app_id :
    (ber : BatchExecuteRequest) (id : ℤ) (msgs : List Message)
    → WellFormed ber msgs
    → WellFormed (update_batch_exec_app_id ber id) (map (set_app_id id) msgs)
unfolding update_batch_exec_app_id
WellFormed-set_app_id ber id [] w = tt
WellFormed-set_app_id ber id (msg ∷ msgs) ((u, f, i), ws) =
    ((u, f, refl), WellFormed-set_app_id ber id msgs ws)

-- A valid request stays valid with another app id that is not 0, and its messages all carry that id.
pub is_batch_exec_request_valid-update_batch_exec_app_id :
    (ber : BatchExecuteRequest) (id : ℤ)
    → is_batch_exec_request_valid ber ≡ true
    → id ≢ pos 0
    → (is_batch_exec_request_valid (update_batch_exec_app_id ber id) ≡ true)
      × WellFormed (update_batch_exec_app_id ber id) (update_batch_exec_app_id ber id).messages
unfolding update_batch_exec_app_id
is_batch_exec_request_valid-update_batch_exec_app_id ber id valid n =
    let (work, user, function, ws) = (is_batch_exec_request_valid_lem ber).0 valid in
    (
      (is_batch_exec_request_valid_lem (update_batch_exec_app_id ber id)).1
          (inr n, user, function, WellFormed-set_app_id ber id ber.messages ws),
      WellFormed-set_app_id ber id ber.messages ws,
    )
