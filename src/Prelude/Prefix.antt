-- ===== src/Prelude/Prefix.antt =====
-- One list as the start of another.
use Prim.Native.Nat.{◌≤◌}
use mathlib.Core.Path.{◌≡◌, sym, ap, ◌∙◌}
use mathlib.Core.List.{List, ◌++◌}
use native.Mathlib.Omega.{arith}
use distributed_algorithms.Prelude.Lists.{
  length, take, take_all, take-append_left, length-take-le, take-take,
}

module _ {ℓ} {A : Type ℓ} where
  abbrev pub IsPrefix : List A → List A → Type ℓ
  IsPrefix xs ys = take (length xs) ys ≡ xs

  pub same-IsPrefix : (xs ys : List A) → ys ≡ xs → IsPrefix xs ys
  same-IsPrefix xs ys e = ap (take (length xs)) e ∙ take_all xs

  pub append-IsPrefix : (xs ys zs : List A) → zs ≡ xs ++ ys → IsPrefix xs zs
  append-IsPrefix xs ys zs e =
      ap (take (length xs)) e ∙ (take-append_left (length xs) xs ys (omega arith) ∙ take_all xs)

  pub IsPrefix-length : (xs ys : List A) → IsPrefix xs ys → length xs ≤ length ys
  IsPrefix-length xs ys p = omega (arith, ap length p, length-take-le (length xs) ys)

  pub IsPrefix-trans : (xs ys zs : List A) → IsPrefix xs ys → IsPrefix ys zs → IsPrefix xs zs
  IsPrefix-trans xs ys zs p q =
      sym (take-take (length xs) (length ys) zs (IsPrefix-length xs ys p))
      ∙ (ap (take (length xs)) q ∙ p)
