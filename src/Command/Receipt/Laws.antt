-- ===== src/Command/Receipt/Laws.antt =====
-- What `claim` finds, and what is found after a row was saved
-- (backend/app/services/workflow_command_receipt_service.py).
use filum_reforge.Base.{
  ℕ, String, ◌≡◌, refl, ◌↔◌, ◌⊎◌, inl, inr, ◌≢◌, true, Option, some, List, [], ◌∷◌, ◌++◌, arith,
  ◌==◌, eq_iff, Option-cases, Bool-cases,
}
use filum_reforge.Value.{Fields}
use filum_reforge.Errors.{Result, ok, raise, Failure}
use filum_reforge.Command.Receipt.{
  processing, succeeded, failed, Key, Receipt, Command, Claim, fresh, replay, conflicting, refused,
  same_key, find_receipt, save, new_receipt, check_payload, insert_receipt, claim_key, complete,
  fail,
}

pub same_key_iff : (a b : Key) → (same_key a b ≡ true) ↔ (a ≡ b)
unfolding same_key
same_key_iff a b = ground (
  arith,
  eq_iff a.actor_key b.actor_key,
  eq_iff a.command_type b.command_type,
  eq_iff a.command_id b.command_id,
)

pub find_receipt-key :
    (key : Key) (rs : List Receipt) (r : Receipt) → find_receipt key rs ≡ some r → r.key ≡ key
unfolding find_receipt
find_receipt-key key [] r h = cc
find_receipt-key key (x ∷ rs) r h =
    ground (arith, same_key_iff x.key key, find_receipt-key key rs r)

pub find_receipt-cons : (r : Receipt) (rs : List Receipt) → find_receipt r.key (r ∷ rs) ≡ some r
unfolding find_receipt
find_receipt-cons r rs = ground (arith, same_key_iff r.key r.key)

-- A saved row replaces the one of its identity, and no other.
pub find_receipt-save :
    (key : Key) (saved old : Receipt) (rs : List Receipt)
    → saved.key ≡ key
    → find_receipt key rs ≡ some old
    → find_receipt key (save saved rs) ≡ some saved
unfolding find_receipt save
find_receipt-save key saved old [] k h = cc
find_receipt-save key saved old (x ∷ rs) k h = ground (
  arith,
  same_key_iff x.key saved.key,
  same_key_iff x.key key,
  same_key_iff saved.key key,
  find_receipt-save key saved old rs,
)

pub find_receipt-save_ne :
    (saved : Receipt) (key : Key) (rs : List Receipt)
    → key ≢ saved.key
    → find_receipt key (save saved rs) ≡ find_receipt key rs
unfolding find_receipt save
find_receipt-save_ne saved key [] ne = refl
find_receipt-save_ne saved key (x ∷ rs) ne = ground (
  arith,
  same_key_iff x.key saved.key,
  same_key_iff x.key key,
  same_key_iff saved.key key,
  find_receipt-save_ne saved key rs,
)

pub Result-cases :
    {A : Type 0} (r : Result A) → ((a : A) × (r ≡ ok a)) ⊎ ((e : Failure) × (r ≡ raise e))
Result-cases (ok a) = inl (a, refl)
Result-cases (raise e) = inr (e, refl)

-- What a claim tells of the rows that it leaves.
abbrev pub Tells : String → Key → Claim → List Receipt → Type 0
Tells hash key (fresh r) rs =
    (find_receipt key rs ≡ some r) × (r.status ≡ processing) × (r.payload_hash ≡ hash)
Tells hash key (replay r) rs = (find_receipt key rs ≡ some r) × (r.payload_hash ≡ hash)
Tells hash key (conflicting r) rs = (find_receipt key rs ≡ some r) × (r.payload_hash ≢ hash)
Tells hash key (refused e) rs = ⊥

check_payload-Tells :
    (hash : String) (key : Key) (r : Receipt) (rs : List Receipt)
    → find_receipt key rs ≡ some r
    → Tells hash key (check_payload hash r) rs
unfolding check_payload
check_payload-Tells hash key r rs h = elim (Bool-cases (r.payload_hash == hash)) [
  | inl same ↦ rw same (h, (eq_iff r.payload_hash hash).0 same)
  | inr other ↦ rw other (h, λ e. ground (arith, eq_iff r.payload_hash hash))
]

pub claim_key-Tells :
    (key : Key) (hash : String) (command : Command) (rivals rs : List Receipt)
    → Tells hash key
        (claim_key key hash command rivals rs).0
        (claim_key key hash command rivals rs).1
unfolding claim_key insert_receipt new_receipt
claim_key-Tells key hash command rivals rs = elim (Option-cases (find_receipt key rs)) [
  | inl unseen ↦ elim (Option-cases (find_receipt key (rivals ++ rs))) [
    | inl none_yet ↦
        rw (unseen, claim_key)
          (rw (none_yet, insert_receipt)
            (find_receipt-cons (new_receipt key hash command) (rivals ++ rs), refl, refl))
    | inr (r, e) ↦
        rw (unseen, claim_key)
          (rw (e, insert_receipt) (check_payload-Tells hash key r (rivals ++ rs) e))
  ]
  | inr (r, e) ↦ rw (e, claim_key) (check_payload-Tells hash key r rs e)
]

-- A receipt leaves `processing` once: completing or failing one that is done either gives it back as
-- it is or raises, and what comes back is done.
pub complete-fail_once :
    (r saved : Receipt) (result : Fields) (kind id : Option String) (error : Failure) (now : ℕ)
    → (complete r result kind id now ≡ ok saved
        → (saved.status ≡ succeeded)
          × (saved.key ≡ r.key)
          × ((r.status ≡ processing) ⊎ (saved ≡ r)))
      × (fail r error now ≡ ok saved
          → (saved.status ≡ failed) × (saved.key ≡ r.key) × ((r.status ≡ processing) ⊎ (saved ≡ r)))
unfolding complete fail
complete-fail_once r saved result kind id error now = ground arith

pub complete-saved :
    (r saved : Receipt) (result : Fields) (kind id : Option String) (now : ℕ)
    → r.status ≡ processing
    → complete r result kind id now ≡ ok saved
    → (saved.key ≡ r.key)
      × (saved.status ≡ succeeded)
      × (saved.result ≡ result)
      × (saved.payload_hash ≡ r.payload_hash)
unfolding complete
complete-saved r saved result kind id now st h = ground arith
