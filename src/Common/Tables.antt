-- ===== src/Common/Tables.antt =====
-- Equality as an interface, and tables with a primary key as association lists.
use Prim.Native.String.{String}
use mathlib.Core.Path.{◌≡◌, refl}
use mathlib.Core.Logic.{◌↔◌}
use mathlib.Core.Bool.{Bool, true, ◌&&◌}
use mathlib.Core.Option.{Option, none, some}
use mathlib.Core.List.{List, [], ◌∷◌}
use native.Mathlib.Omega.{arith}
use text.Mathlib.Text.{◌==◌ as str_eq}
use text.Mathlib.TextEquality.{eq_iff}
use agentknot.Common.Tests.{if◌then◌else◌}

-- `===` on texts.
unfoldable pub text_eq : String → String → Bool
text_eq s t = str_eq s t

pub text_eq_iff : (s t : String) → (text_eq s t ≡ true) ↔ (s ≡ t)
unfolding text_eq
text_eq_iff s t = eq_iff s t

pub text_eq_refl : (s : String) → text_eq s s ≡ true
text_eq_refl s = (text_eq_iff s s).1 refl

pub record Eq {ℓ} (A : Type ℓ) : Type ℓ where
  pub beq : A → A → Bool
  pub beq_iff : (a b : A) → (beq a b ≡ true) ↔ (a ≡ b)

instance abbrev pub text_key : Eq String
text_key = record { beq = text_eq; beq_iff = text_eq_iff }

-- A primary key of two columns.
unfoldable pub pair_eq : String × String → String × String → Bool
pair_eq (a, b) (c, d) = text_eq a c && text_eq b d

pub pair_eq_iff : (p q : String × String) → (pair_eq p q ≡ true) ↔ (p ≡ q)
unfolding pair_eq
pair_eq_iff (a, b) (c, d) = ground (arith, text_eq_iff a c, text_eq_iff b d)

instance abbrev pub pair_key : Eq (String × String)
pair_key = record { beq = pair_eq; beq_iff = pair_eq_iff }

abbrev pub Table {ℓ κ} : Type ℓ → Type κ → Type (ℓ ⊔ κ)
Table K V = List (K × V)

module _ {ℓ κ} {K : Type ℓ} {V : Type κ} ⦃e : Eq K⦄ where
  unfoldable pub lookup : K → Table K V → Option V
  lookup k [] = none
  lookup k ((j, v) ∷ m) = if e.beq j k then some v else lookup k m

  -- A new row at the end, or the row of that key replaced.
  unfoldable pub put : K → V → Table K V → Table K V
  put k v [] = (k, v) ∷ []
  put k v ((j, w) ∷ m) = if e.beq j k then (k, v) ∷ m else (j, w) ∷ put k v m

  -- Without the row of that key.
  unfoldable pub remove : K → Table K V → Table K V
  remove k [] = []
  remove k ((j, v) ∷ m) = if e.beq j k then remove k m else (j, v) ∷ remove k m

  pub lookup-remove :
      (k j : K) (m : Table K V) → lookup j (remove k m) ≡ (if e.beq k j then none else lookup j m)
  unfolding lookup remove
  lookup-remove k j [] = ground (arith, e.beq_iff k j)
  lookup-remove k j ((i, w) ∷ m) =
      ground (arith, e.beq_iff k j, e.beq_iff i k, e.beq_iff i j, lookup-remove k j m)

  pub lookup-put :
      (k j : K) (v : V) (m : Table K V)
      → lookup j (put k v m) ≡ (if e.beq k j then some v else lookup j m)
  unfolding lookup put
  lookup-put k j v [] = refl
  lookup-put k j v ((i, w) ∷ m) =
      ground (arith, e.beq_iff k j, e.beq_iff i k, e.beq_iff i j, lookup-put k j v m)

  pub lookup-put_self : (k : K) (v : V) (m : Table K V) → lookup k (put k v m) ≡ some v
  lookup-put_self k v m = ground (arith, lookup-put k k v m, (e.beq_iff k k).1 refl)
