-- ===== src/Json/Equality.antt =====
-- Equality of canonical JSON is equality of the values.
use alice_brain_hermes.Prelude.{
  String, ◌≡◌, refl, Bool, true, false, ◌&&◌, str_eq, ap, arith, eq_iff,
}
use alice_brain_hermes.Json.{
  Json, Items, Fields, Number, non_negative, negative, double, null, bool, num, str, arr, obj, nil,
  cons, end, field, json_eq, items_eq, fields_eq, num_eq, bool_eq,
}

num_eq_sound : (a b : Number) → num_eq a b ≡ true → a ≡ b
num_eq_sound (non_negative a) (non_negative b) h = ground arith
num_eq_sound (negative a) (negative b) h = ground arith
num_eq_sound (double a) (double b) h = ground arith
num_eq_sound (non_negative a) (negative b) h = ground arith
num_eq_sound (non_negative a) (double b) h = ground arith
num_eq_sound (negative a) (non_negative b) h = ground arith
num_eq_sound (negative a) (double b) h = ground arith
num_eq_sound (double a) (non_negative b) h = ground arith
num_eq_sound (double a) (negative b) h = ground arith

num_eq_refl : (a : Number) → num_eq a a ≡ true
num_eq_refl (non_negative a) = ground arith
num_eq_refl (negative a) = ground arith
num_eq_refl (double a) = ground arith

bool_eq_sound : (a b : Bool) → bool_eq a b ≡ true → a ≡ b
bool_eq_sound true b h = ground arith
bool_eq_sound false b h = ground arith

mutual
  unfolding json_eq items_eq fields_eq

  json_eq_refl : (a : Json) → json_eq a a ≡ true
  json_eq_refl null = refl
  json_eq_refl (bool true) = refl
  json_eq_refl (bool false) = refl
  json_eq_refl (num n) = num_eq_refl n
  json_eq_refl (str s) = ground (arith, eq_iff s s)
  json_eq_refl (arr items) = items_eq_refl items
  json_eq_refl (obj fields) = fields_eq_refl fields

  items_eq_refl : (a : Items) → items_eq a a ≡ true
  items_eq_refl nil = refl
  items_eq_refl (cons x xs) = ground (arith, json_eq_refl x, items_eq_refl xs)

  pub fields_eq_refl : (a : Fields) → fields_eq a a ≡ true
  fields_eq_refl end = refl
  fields_eq_refl (field k v rest) = ground (arith, eq_iff k k, json_eq_refl v, fields_eq_refl rest)

all_three : (a b c : Bool) → (a && b && c) ≡ true → (a ≡ true) × (b ≡ true) × (c ≡ true)
all_three a b c h = ground arith

field_cong :
    {j k : String} {v w : Json} {xs ys : Fields}
    → j ≡ k
    → v ≡ w
    → xs ≡ ys
    → field j v xs ≡ field k w ys
field_cong p q r = cc

mutual
  unfolding json_eq items_eq fields_eq

  json_eq_sound : (a b : Json) → json_eq a b ≡ true → a ≡ b
  json_eq_sound null b h = ground arith
  json_eq_sound (bool x) (bool y) h = ap bool (bool_eq_sound x y h)
  json_eq_sound (num m) (num n) h = ap num (num_eq_sound m n h)
  json_eq_sound (str s) (str t) h = ground (arith, eq_iff s t)
  json_eq_sound (arr xs) (arr ys) h = ap arr (items_eq_sound xs ys h)
  json_eq_sound (obj xs) (obj ys) h = ap obj (fields_eq_sound xs ys h)
  json_eq_sound (bool x) b h = ground arith
  json_eq_sound (num x) b h = ground arith
  json_eq_sound (str x) b h = ground arith
  json_eq_sound (arr x) b h = ground arith
  json_eq_sound (obj x) b h = ground arith

  items_eq_sound : (a b : Items) → items_eq a b ≡ true → a ≡ b
  items_eq_sound nil nil h = refl
  items_eq_sound nil (cons y ys) h = ground arith
  items_eq_sound (cons x xs) nil h = ground arith
  items_eq_sound (cons x xs) (cons y ys) h = ground (arith, json_eq_sound x y, items_eq_sound xs ys)

  pub fields_eq_sound : (a b : Fields) → fields_eq a b ≡ true → a ≡ b
  fields_eq_sound end end h = refl
  fields_eq_sound end (field k w ys) h = ground arith
  fields_eq_sound (field j v xs) end h = ground arith
  fields_eq_sound (field j v xs) (field k w ys) h =
      let (p, q, r) = all_three (str_eq j k) (json_eq v w) (fields_eq xs ys) h in
      field_cong (ground (arith, eq_iff j k)) (json_eq_sound v w q) (fields_eq_sound xs ys r)
