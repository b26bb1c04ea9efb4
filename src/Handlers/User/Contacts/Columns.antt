-- ===== src/Handlers/User/Contacts/Columns.antt =====
-- The columns of a contact that a text is stored in: src/handlers/user.rs.
use mathlib.Core.Option
use mathlib.Core.Path.{subst, sym}
use pactum_codex.Base.{
  ℕ, ◌≡◌, refl, true, false, Option, none, some, List, ◌∷◌, ◌||◌, not, find, exists, update_where,
  if◌then◌else◌, Bool-cases, Option-cases, inl, inr, head, ==_refl, is_some, ap, ◌∙◌, exists-find,
  find-update_found,
}
use pactum_codex.Error.{AppError}
use pactum_codex.State.Rows.{Contact}
use pactum_codex.State.World.{
  World, Result, ok, err, M, Void, ◌>>=◌, OnOk, bind_lem, pure, execute_if,
}
use pactum_codex.Services.Crypto.{Cipher, encrypt, decrypt, decrypt-encrypt}
use pactum_codex.Handlers.User.{
  coalesce, merge_contact, has_user_id, has_account_id, upsert_rows, upsert_contact, encrypt_given,
}

abbrev pub or_empty : ℕ → Option Contact → Contact
or_empty user none = record {
  user_id = user;
  email_enc = none;
  email_nonce = none;
  email_index = none;
  phone_enc = none;
  phone_nonce = none;
  push_token_enc = none;
  push_token_nonce = none;
}
or_empty user (some c) = c

-- The row of the user, or an empty one.
abbrev pub row_of : ℕ → List Contact → Contact
row_of user cs = or_empty user (find (has_user_id user) cs)

coalesce-none : (x : Option ℕ) → coalesce x none ≡ x
coalesce-none none = refl
coalesce-none (some a) = refl

merge_contact-empty : (new : Contact) → merge_contact new (or_empty new.user_id none) ≡ new
merge_contact-empty new =
    rw
      (
        coalesce-none new.email_enc,
        coalesce-none new.email_nonce,
        coalesce-none new.email_index,
        coalesce-none new.phone_enc,
        coalesce-none new.phone_nonce,
        coalesce-none new.push_token_enc,
        coalesce-none new.push_token_nonce,
      )
      refl

find-new :
    (new : Contact) (cs : List Contact) → find (has_user_id new.user_id) (new ∷ cs) ≡ some new
find-new new cs = rw (==_refl new.user_id) refl

-- The row that an upsert leaves is the old one with the given columns over it.
pub row_of-upsert_rows :
    (new : Contact) (cs : List Contact)
    → row_of new.user_id (upsert_rows new cs) ≡ merge_contact new (row_of new.user_id cs)
row_of-upsert_rows new cs = elim (Option-cases (find (has_user_id new.user_id) cs)) [
  | inl absent ↦
      let e : exists (has_user_id new.user_id) cs ≡ false =
        exists-find (has_user_id new.user_id) cs ∙ ap is_some absent in
      ap
        (λ b.
          row_of new.user_id
            (if b then update_where (has_user_id new.user_id) (merge_contact new) cs else new ∷ cs))
        e
      ∙ ap (or_empty new.user_id) (find-new new cs)
      ∙ sym (ap (λ o. merge_contact new (or_empty new.user_id o)) absent ∙ merge_contact-empty new)
  | inr (c, there) ↦
      let e : exists (has_user_id new.user_id) cs ≡ true =
        exists-find (has_user_id new.user_id) cs ∙ ap is_some there in
      ap
        (λ b.
          row_of new.user_id
            (if b then update_where (has_user_id new.user_id) (merge_contact new) cs else new ∷ cs))
        e
      ∙ ap (or_empty new.user_id)
          (find-update_found (has_user_id new.user_id) (merge_contact new) (λ _. refl) cs c there)
      ∙ sym (ap (λ o. merge_contact new (or_empty new.user_id o)) there)
]

-- The two columns of a text: what decrypts to it, or the old ones when none is given.
abbrev pub Holds : Cipher → ℕ → Option (List ℕ) → Option ℕ × Option ℕ → Option ℕ × Option ℕ → Type 0
Holds cipher key none old new = new ≡ old
Holds cipher key (some text) old new =
    (s : ℕ × ℕ) × (new ≡ (some s.0, some s.1)) × (decrypt cipher s.0 s.1 key ≡ ok text)

abbrev over : Option (ℕ × ℕ) → Option ℕ × Option ℕ → Option ℕ × Option ℕ
over s old = (coalesce (Option.map (λ s. s.0) s) old.0, coalesce (Option.map (λ s. s.1) s) old.1)

module _ (cipher : Cipher) where
  encrypt_given-Holds :
      (text : Option (List ℕ)) (key : ℕ) (w : World)
      → OnOk
          (encrypt_given cipher text key w).0
          (λ s. (old : Option ℕ × Option ℕ) → Holds cipher key text old (over s old))
  unfolding encrypt_given
  encrypt_given-Holds none key w = λ old. refl
  encrypt_given-Holds (some text) key w =
      bind_lem (encrypt cipher text key) (λ sealed. pure (some sealed))
        (λ q.
          OnOk q.0
            (λ s. (old : Option ℕ × Option ℕ) → Holds cipher key (some text) old (over s old)))
        w
        (λ sealed e old. (
          sealed,
          refl,
          subst (λ r. OnOk r (λ c. decrypt cipher c.0 c.1 key ≡ ok text)) e
              (decrypt-encrypt cipher text key w),
        ))
        (λ _ _. tt)

  pub encrypt-db : (text : List ℕ) (key : ℕ) (w : World) → (encrypt cipher text key w).1.db ≡ w.db
  unfolding encrypt
  encrypt-db text key w = elim (Option-cases (cipher.seal key (w.supply 0) text)) [
    | inl e ↦ rw e refl
    | inr (c, e) ↦ rw e refl
  ]

  encrypt_given-db :
      (text : Option (List ℕ)) (key : ℕ) (w : World) → (encrypt_given cipher text key w).1.db ≡ w.db
  unfolding encrypt_given
  encrypt_given-db none key w = refl
  encrypt_given-db (some text) key w =
      bind_lem (encrypt cipher text key) (λ sealed. pure (some sealed)) (λ q. q.1.db ≡ w.db) w
        (λ _ _. encrypt-db text key w) (λ _ _. encrypt-db text key w)

  pub encrypt_given-bind :
      (text : Option (List ℕ)) (key : ℕ) (w : World) (f : Option (ℕ × ℕ) → M Void)
      (P : Result Void × World → Type 0)
      → ((s : Option (ℕ × ℕ)) (w' : World)
          → w'.db ≡ w.db
          → ((old : Option ℕ × Option ℕ) → Holds cipher key text old (over s old))
          → P (f s w'))
      → ((e : AppError) (w' : World) → P (err e, w'))
      → P ((encrypt_given cipher text key >>= f) w)
  encrypt_given-bind text key w f P done failed =
      let holds : Option (ℕ × ℕ) → Type 0 =
        λ s. (old : Option ℕ × Option ℕ) → Holds cipher key text old (over s old) in
      bind_lem (encrypt_given cipher text key) f P w
        (λ s e.
          done s (encrypt_given cipher text key w).1 (encrypt_given-db text key w)
            (subst (λ r. OnOk r holds) e (encrypt_given-Holds text key w)))
        (λ e _. failed e (encrypt_given cipher text key w).1)

pub upsert_contact-row :
    (new : Contact) (w : World)
    → OnOk (upsert_contact new w).0 (λ _.
      row_of new.user_id (upsert_contact new w).1.db.user_contacts
      ≡ merge_contact new (row_of new.user_id w.db.user_contacts))
upsert_contact-row new w =
    elim (Bool-cases
      (head w.faults || not (exists (has_account_id new.user_id) w.db.user_accounts))) [
        | inl fails ↦ rw (fails, execute_if, OnOk) tt
        | inr fine ↦ rw (fine, execute_if, OnOk) (row_of-upsert_rows new w.db.user_contacts)
      ]
