-- ===== src/Base/Store.antt =====
-- A heap whose indices are the shared pointers, and a map from ids to them, in the order of the ids
-- as `std::map` keeps it.
use Prim.Native.Nat.{ℕ, zero, suc, ◌≤◌}
use mathlib.Core.List.{List, [], ◌∷◌}
use mathlib.Core.Option.{Option, none, some}
use native.Mathlib.Omega.{arith}
use github_codespaces_proxy.Base.Tests.{ltb, ◌==◌, if◌then◌else◌}
use github_codespaces_proxy.Base.Lists.{length}

unfoldable pub deref {ℓ} : {A : Type ℓ} → List A → ℕ → Option A
deref [] p = none
deref (s ∷ heap) zero = some s
deref (s ∷ heap) (suc p) = deref heap p

unfoldable pub update {ℓ} : {A : Type ℓ} → (A → A) → List A → ℕ → List A
update f [] p = []
update f (s ∷ heap) zero = f s ∷ heap
update f (s ∷ heap) (suc p) = s ∷ update f heap p

unfoldable pub find_id : ℕ → List (ℕ × ℕ) → Option ℕ
find_id id [] = none
find_id id ((j, p) ∷ m) = if j == id then some p else find_id id m

unfoldable pub put_id : ℕ → ℕ → List (ℕ × ℕ) → List (ℕ × ℕ)
put_id id p [] = (id, p) ∷ []
put_id id p ((j, q) ∷ m) =
    if j == id
    then (id, p) ∷ m
    else if ltb id j
    then (id, p) ∷ (j, q) ∷ m
    else (j, q) ∷ put_id id p m

unfoldable pub erase_id : ℕ → List (ℕ × ℕ) → List (ℕ × ℕ)
erase_id id [] = []
erase_id id ((j, p) ∷ m) = if j == id then m else (j, p) ∷ erase_id id m

pub erase_id-length : (id : ℕ) (l : List (ℕ × ℕ)) → length (erase_id id l) ≤ length l
unfolding erase_id
erase_id-length id [] = omega arith
erase_id-length id ((j, p) ∷ l) = let h = erase_id-length id l in ground arith

pub put_id-length : (id p : ℕ) (l : List (ℕ × ℕ)) → length (put_id id p l) ≤ suc (length l)
unfolding put_id
put_id-length id p [] = omega arith
put_id-length id p ((j, q) ∷ l) = let h = put_id-length id p l in ground arith
