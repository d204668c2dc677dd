-- ===== src/Branches/Chains.antt =====
-- The chains of a session: the live one and those of the records, each with its time of birth.
use mathlib.Core.List.Perm
use mathlib.Core.List.{Perm}
use mathlib.Core.Option.{some-injective}
use echo_ai_c.Base.{
  ℕ, zero, suc, ◌+◌, ◌≡◌, refl, ap, subst, arith, Bool, true, false, Option, none, some, List, [],
  ◌∷◌, ◌++◌, map, Bytes, Bool-cases, inl, inr, All, if◌then◌else◌, ◌>>=◌, get_elem?,
}
use echo_ai_c.Messages.{Message, or_empty}
use echo_ai_c.Branches.{
  BranchRecord, Session, guard, ◌>>◌, has_id, branch_record_find, remove_at, branch_list_ensure,
  branch_active_created_at,
}

pub some_of_bind {ℓ κ} :
    {A : Type ℓ} {B : Type κ} (o : Option A) (f : A → Option B) (b : B)
    → (o >>= f) ≡ some b
    → (a : A) × (o ≡ some a) × (f a ≡ some b)
some_of_bind none f b h = absurd (ground (arith, h))
some_of_bind (some a) f b h = (a, refl, h)

pub some_of_guard {ℓ} :
    {B : Type ℓ} (g : Bool) (k : Option B) (b : B) → (guard g >> k) ≡ some b → k ≡ some b
some_of_guard true k b h = h
some_of_guard false k b h = absurd (ground (arith, h))

pub some_of_if {ℓ} :
    {A : Type ℓ} (b : Bool) (x y : A) → (if b then some x else none) ≡ some y → x ≡ y
some_of_if true x y h = ground (arith, h)
some_of_if false x y h = absurd (ground (arith, h))

abbrev pub or_nil {ℓ} : {A : Type ℓ} → Option (List A) → List A
or_nil none = []
or_nil (some l) = l

module _ {J : Type 0} where
  abbrev pub chain_of : BranchRecord J → Bytes × List J
  chain_of rec = (or_empty rec.created_at, or_nil rec.messages)

  pub get_elem?-append :
      (l r : List (BranchRecord J)) (i : ℕ) (rec : BranchRecord J)
      → get_elem? l i ≡ some rec
      → get_elem? (l ++ r) i ≡ some rec
  get_elem?-append [] r i rec h = absurd (ground (arith, h))
  get_elem?-append (x ∷ l) r zero rec h = h
  get_elem?-append (x ∷ l) r (suc i) rec h = get_elem?-append l r i rec h

  pub remove_at-Perm :
      (l : List (BranchRecord J)) (i : ℕ) (rec : BranchRecord J)
      → get_elem? l i ≡ some rec
      → Perm (map chain_of (rec ∷ remove_at l i)) (map chain_of l)
  unfolding remove_at
  remove_at-Perm [] i rec h = absurd (ground (arith, h))
  remove_at-Perm (x ∷ l) zero rec h =
      let e : x ≡ rec = ground (arith, h) in
      subst (λ r. Perm (map chain_of (r ∷ l)) (map chain_of (x ∷ l))) e
        (Perm.refl (map chain_of (x ∷ l)))
  remove_at-Perm (x ∷ l) (suc i) rec h =
      Perm.trans (Perm.swap (chain_of x) (chain_of rec) (map chain_of (remove_at l i)))
        (Perm.cons (chain_of x) (remove_at-Perm l i rec h))

  -- Where the search finds a record.
  pub branch_record_find-place :
      (l : List (BranchRecord J)) (id : Bytes) (k i : ℕ) (rec : BranchRecord J)
      → branch_record_find l id k ≡ some (i, rec)
      → (j : ℕ) × (i ≡ k + j) × (get_elem? l j ≡ some rec) × (has_id rec.id id ≡ true)
  unfolding branch_record_find
  branch_record_find-place [] id k i rec h = absurd (ground (arith, h))
  branch_record_find-place (x ∷ l) id k i rec h = elim (Bool-cases (has_id x.id id)) [
    | inl t ↦
        let e : (some (k, x)) ≡ some (i, rec) = rw t at h in
        let here : x ≡ rec = ground (arith, e) in
        (0, ground (arith, e), ap some here, subst (λ r. has_id r.id id ≡ true) here t)
    | inr f ↦
        let e : branch_record_find l id (k + 1) ≡ some (i, rec) = rw f at h in
        let found = branch_record_find-place l id (k + 1) i rec e in
        (suc found.0, omega (arith, found.1), found.2, found.3)
  ]

module _ {J N : Type 0} where
  abbrev pub chains : (Message N → J) → Session J N → List (Bytes × List J)
  chains store_of s =
      (branch_active_created_at s, map store_of s.messages) ∷ map chain_of (branch_list_ensure s)

  -- Each record has a time of birth and messages that were stored by this code.
  abbrev pub IsRecorded : (Message N → J) → BranchRecord J → Type 0
  IsRecorded store_of rec =
      (c : Bytes) × (ms : List (Message N)) × (rec.created_at ≡ some c)
      × (rec.messages ≡ some (map store_of ms))

  abbrev pub Recorded : (Message N → J) → Session J N → Type 0
  Recorded store_of s = All (IsRecorded store_of) (branch_list_ensure s)

module _ {ℓ κ} {A : Type ℓ} (P : A → Type κ) where
  pub All-at : (l : List A) (i : ℕ) (x : A) → All P l → get_elem? l i ≡ some x → P x
  All-at [] i x all h = absurd (ground (arith, h))
  All-at (y ∷ l) zero x all h = subst P (some-injective y x h) all.0
  All-at (y ∷ l) (suc i) x all h = All-at l i x all.1 h

  pub All-snoc : (l : List A) (x : A) → All P l → P x → All P (l ++ (x ∷ []))
  All-snoc [] x all p = (p, tt)
  All-snoc (y ∷ l) x all p = (all.0, All-snoc l x all.1 p)

module _ {κ} {J : Type 0} (P : BranchRecord J → Type κ) where
  pub All-remove_at : (l : List (BranchRecord J)) (i : ℕ) → All P l → All P (remove_at l i)
  unfolding remove_at
  All-remove_at [] i all = tt
  All-remove_at (x ∷ l) zero all = all.1
  All-remove_at (x ∷ l) (suc i) all = (all.0, All-remove_at l i all.1)
