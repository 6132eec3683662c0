-- ===== src/Hooks/Worker/Keys.antt =====
-- The keys of two attempts of a request are different.
use crabforge.Prelude.{
  ℕ, suc, ◌+◌, ◌%◌, ◌≤◌, ◌<◌, ◌≡◌, ◌≢◌, refl, sym, ◌∙◌, true, [], ◌∷◌, ◌++◌, arith, ltb,
}
use crabforge.Str.{Text, codes}
use crabforge.Events.Headers.{decimal}
use crabforge.Hooks.Worker.{DeliveryRequest, attempt_key}

append_cancel : (xs ys zs : Text) → xs ++ ys ≡ xs ++ zs → ys ≡ zs
append_cancel [] ys zs h = h
append_cancel (x ∷ xs) ys zs h =
    let tails : xs ++ ys ≡ xs ++ zs = cc in append_cancel xs ys zs tails

decimal_digit : (n : ℕ) → n < 10 → decimal 20 n [] ≡ (n + b'0') ∷ []
unfolding decimal
decimal_digit n h =
    let small : ltb n 10 ≡ true = ground arith in
    let same : n % 10 ≡ n = omega arith in rw small (rw same refl)

attempt_key-injective :
    (request : DeliveryRequest) (m n : ℕ)
    → m < 10
    → n < 10
    → attempt_key request m ≡ attempt_key request n
    → m ≡ n
unfolding attempt_key
attempt_key-injective request m n hm hn h =
    let digits : decimal 20 m [] ≡ decimal 20 n [] =
      append_cancel (request.delivery_id ++ codes "#") (decimal 20 m []) (decimal 20 n []) h in
    let one : (m + b'0') ∷ [] ≡ (n + b'0') ∷ [] =
      sym (decimal_digit m hm) ∙ (digits ∙ decimal_digit n hn) in
    let heads : m + b'0' ≡ n + b'0' = cc in omega (arith, heads)

pub apart_keys :
    (request : DeliveryRequest) (lo m : ℕ)
    → suc lo ≤ m
    → m < 10
    → attempt_key request lo ≢ attempt_key request m
apart_keys request lo m h hm key =
    let same = attempt_key-injective request lo m (omega (arith, h, hm)) hm key in
    absurd (omega (arith, same, h))
