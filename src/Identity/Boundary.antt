-- ===== src/Identity/Boundary.antt =====
-- The invariant of the identity state: one self actor, at the brain's own ID, and bounded tuples with no repeats.
use mathlib.Core.Bool.{false≢true}
use mathlib.Core.List.{map-append}
use alice_brain_hermes.Prelude.{
  ◌≤◌, ◌<◌, String, ◌≡◌, refl, Bool, true, false, not, ◌&&◌, some, List, [], ◌∷◌, map, leb, str_eq,
  eq_iff, str_mem, is_unique, is_unique-snoc, sym, ◌∙◌, all, length, All, length-append, arith, ok,
  Bool-cases, inl, inr,
}
use alice_brain_hermes.Events.{EventEnvelope}
use alice_brain_hermes.Identity.State.{
  IdentityState, ActorRecord, ActorKind, keep, has_id, is_self, kind_is, actor_eq, one_same,
  exact_self_boundary, replace_actor, max_identity_actors, max_provenance_authorizations,
}
use alice_brain_hermes.Identity.{reduce_identity}
use alice_brain_hermes.Identity.Change.{
  Change, reduce_identity-Change, with_actor, with_authorization,
}

abbrev pub actor_ids : List ActorRecord → List String
actor_ids = map (λ a. a.actor_id)

pub record IsIdentity (s : IdentityState) : Type 0 where
  pub boundary : All (λ a. is_self a ≡ has_id s.self_actor_id a) s.actors
  pub one_self : length (keep is_self s.actors) ≡ 1
  pub distinct : is_unique (actor_ids s.actors) ≡ true
  pub actors_bounded : length s.actors ≤ max_identity_actors
  pub authorizations_bounded : length s.authorizations ≤ max_provenance_authorizations

All-both {ℓ} :
    {A : Type ℓ} (P Q R : A → Type 0) (xs : List A)
    → ((x : A) → P x → Q x → R x)
    → All P xs
    → All Q xs
    → All R xs
All-both P Q R [] f p q = tt
All-both P Q R (x ∷ xs) f p q = (f x p.0 q.0, All-both P Q R xs f p.1 q.1)

module _ (test : ActorRecord → Bool) where
  keep-nil :
      (xs : List ActorRecord) (a : ActorRecord)
      → keep test xs ≡ []
      → All (λ x. test x ≡ true → x ≡ a) xs
  unfolding keep
  keep-nil [] a h = tt
  keep-nil (x ∷ xs) a h = ((λ t. ground arith), keep-nil xs a (ground arith))

  keep-single :
      (xs : List ActorRecord) (a : ActorRecord)
      → keep test xs ≡ a ∷ []
      → All (λ x. test x ≡ true → x ≡ a) xs
  unfolding keep
  keep-single [] a h = tt
  keep-single (x ∷ xs) a h = elim (Bool-cases (test x)) [
    | inl t ↦
        let heads : (x ≡ a) × (keep test xs ≡ []) = ground arith in
        ((λ _. heads.0), keep-nil xs a heads.1)
    | inr f ↦ ((λ t. ground arith), keep-single xs a (rw f at h))
  ]

  keep-passes :
      (xs : List ActorRecord) (a : ActorRecord) (rest : List ActorRecord)
      → keep test xs ≡ a ∷ rest
      → test a ≡ true
  unfolding keep
  keep-passes [] a rest h = ground arith
  keep-passes (x ∷ xs) a rest h = elim (Bool-cases (test x)) [
    | inl t ↦ ground arith
    | inr f ↦ keep-passes xs a rest (rw f at h)
  ]

one_same_lem :
    (xs ys : List ActorRecord)
    → one_same xs ys ≡ true
    → (a : ActorRecord) × (b : ActorRecord) × (xs ≡ a ∷ []) × (ys ≡ b ∷ []) × (actor_eq a b ≡ true)
one_same_lem (a ∷ []) (b ∷ []) h = (a, b, refl, refl, h)
one_same_lem [] ys h = absurd (false≢true h)
one_same_lem (a ∷ []) [] h = absurd (false≢true h)
one_same_lem (a ∷ []) (b ∷ c ∷ ys) h = absurd (false≢true h)
one_same_lem (a ∷ c ∷ xs) ys h = absurd (false≢true h)

kind_is_same : (k l : ActorKind) → kind_is k l ≡ true → k ≡ l
kind_is_same k l h = ground arith

same_kind :
    (self_id : String) (a b x : ActorRecord)
    → actor_eq a b ≡ true
    → has_id self_id a ≡ true
    → is_self b ≡ true
    → (has_id self_id x ≡ true → x ≡ a)
    → (is_self x ≡ true → x ≡ b)
    → is_self x ≡ has_id self_id x
unfolding actor_eq
same_kind self_id a b x e ia ib fa fb = elim (Bool-cases (is_self x)) [
  | inl own ↦ let same = fb own in ground (arith, eq_iff a.actor_id b.actor_id)
  | inr other ↦ elim (Bool-cases (has_id self_id x)) [
    | inl here ↦ let same = fa here in ground (arith, kind_is_same a.kind b.kind)
    | inr there ↦ other ∙ sym there
  ]
]

exact-boundary :
    (s : IdentityState)
    → exact_self_boundary s ≡ true
    → All (λ a. is_self a ≡ has_id s.self_actor_id a) s.actors
      × (length (keep is_self s.actors) ≡ 1)
unfolding exact_self_boundary
exact-boundary s h =
    let (a, b, by_id, by_kind, same) =
      one_same_lem (keep (has_id s.self_actor_id) s.actors) (keep is_self s.actors) h in
    let here = keep-passes (has_id s.self_actor_id) s.actors a [] by_id in
    let own = keep-passes is_self s.actors b [] by_kind in
    (
      All-both (λ x. has_id s.self_actor_id x ≡ true → x ≡ a) (λ x. is_self x ≡ true → x ≡ b)
          (λ x. is_self x ≡ has_id s.self_actor_id x) s.actors
          (λ x fa fb. same_kind s.self_actor_id a b x same here own fa fb)
          (keep-single (has_id s.self_actor_id) s.actors a by_id)
          (keep-single is_self s.actors b by_kind),
      ground arith,
    )

module _ (test : ActorRecord → Bool) where
  length-keep-le : (xs : List ActorRecord) → length (keep test xs) ≤ length xs
  unfolding keep
  length-keep-le [] = omega arith
  length-keep-le (x ∷ xs) = ground (arith, length-keep-le xs)

  length-keep-lt : (xs : List ActorRecord) → all test xs ≡ false → length (keep test xs) < length xs
  unfolding keep
  length-keep-lt [] h = ground arith
  length-keep-lt (x ∷ xs) h = ground (arith, length-keep-lt xs, length-keep-le xs)

  mem-keep :
      (s : String) (xs : List ActorRecord)
      → str_mem s (actor_ids xs) ≡ false
      → str_mem s (actor_ids (keep test xs)) ≡ false
  unfolding keep
  mem-keep s [] h = refl
  mem-keep s (x ∷ xs) h = ground (arith, mem-keep s xs)

  unique-keep :
      (xs : List ActorRecord)
      → is_unique (actor_ids xs) ≡ true
      → is_unique (actor_ids (keep test xs)) ≡ true
  unfolding keep
  unique-keep [] h = refl
  unique-keep (x ∷ xs) h = ground (arith, unique-keep xs, mem-keep x.actor_id xs)

not-mem-others :
    (id : String) (xs : List ActorRecord)
    → str_mem id (actor_ids (keep (λ item. not (str_eq item.actor_id id)) xs)) ≡ false
unfolding keep
not-mem-others id [] = refl
not-mem-others id (x ∷ xs) = ground (arith, not-mem-others id xs)

replace_actor-distinct :
    (xs : List ActorRecord) (a : ActorRecord)
    → is_unique (actor_ids xs) ≡ true
    → is_unique (actor_ids (replace_actor xs a)) ≡ true
unfolding replace_actor
replace_actor-distinct xs a u = rw map-append (
    is_unique-snoc (actor_ids (keep (λ item. not (str_eq item.actor_id a.actor_id)) xs)) a.actor_id
      (not-mem-others a.actor_id xs)
      (unique-keep (λ item. not (str_eq item.actor_id a.actor_id)) xs u))

replace_actor-bounded :
    (xs : List ActorRecord) (a : ActorRecord)
    → length xs ≤ max_identity_actors
    → not (
        all (λ item. not (str_eq item.actor_id a.actor_id)) xs
        && leb max_identity_actors (length xs))
      ≡ true
    → length (replace_actor xs a) ≤ max_identity_actors
unfolding replace_actor
replace_actor-bounded xs a b room =
    let test : ActorRecord → Bool = λ item. not (str_eq item.actor_id a.actor_id) in
    ground
      (arith, length-append (keep test xs) (a ∷ []), length-keep-le test xs, length-keep-lt test xs)

-- The parts that the code checks anew on each change, and the others.
rebuilt :
    (t : IdentityState)
    → exact_self_boundary t ≡ true
    → is_unique (actor_ids t.actors) ≡ true
    → length t.actors ≤ max_identity_actors
    → length t.authorizations ≤ max_provenance_authorizations
    → IsIdentity t
rebuilt t exact distinct actors authorizations =
    let (boundary, one) = exact-boundary t exact in
    record {
      boundary = boundary;
      one_self = one;
      distinct = distinct;
      actors_bounded = actors;
      authorizations_bounded = authorizations;
    }

Change-IsIdentity :
    (e : EventEnvelope) {s t : IdentityState} → Change e s t → IsIdentity s → IsIdentity t
Change-IsIdentity e (Change.kept same) i = rw same i
Change-IsIdentity e {s} (Change.renamed name same exact) i = rw same (
    rebuilt (record s { name = some name }) (rw same at exact) i.distinct i.actors_bounded
      i.authorizations_bounded)
Change-IsIdentity e {s} (Change.registered actor _ room same exact) i = rw same (
    rebuilt (with_actor s actor) (rw same at exact)
      (replace_actor-distinct s.actors actor i.distinct)
      (replace_actor-bounded s.actors actor i.actors_bounded room) i.authorizations_bounded)
Change-IsIdentity e {s} (Change.authorized a _ _ _ _ room same exact) i = rw same (
    rebuilt (with_authorization s a) (rw same at exact) i.distinct i.actors_bounded
      (omega (arith, length-append {0} s.authorizations (a ∷ []))))

-- An event that the reducer accepts keeps the identity: an actor is of the self kind exactly if it has the brain's
-- own ID, there is one such actor, IDs stay distinct, and both tuples stay within their capacity.
pub reduce_identity-IsIdentity :
    (e : EventEnvelope) (s t : IdentityState)
    → IsIdentity s
    → reduce_identity s e ≡ ok t
    → IsIdentity t
reduce_identity-IsIdentity e s t i h = Change-IsIdentity e (reduce_identity-Change e s t h) i
