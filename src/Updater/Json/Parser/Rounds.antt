-- ===== src/Updater/Json/Parser/Rounds.antt =====
-- What the rounds of `JsonParser` leave of the text.
use github_codespaces_proxy.Base.{
  ℕ, zero, suc, ◌<◌, Bool, true, false, Option, none, some, arith, Bytes, length,
}
use github_codespaces_proxy.Client.Url.{skip_blanks}
use github_codespaces_proxy.Updater.Json.{JVals, no_vals, Members, no_members, put_member}
use github_codespaces_proxy.Updater.Json.Parser.{
  separator, key_colon, push_val, when_spent, parse_val, parse_members, parse_elements,
}
use github_codespaces_proxy.Updater.Json.Parser.Left.{
  IsWithin, fails, leaves, IsWithin-le, bind-IsWithin, skip_blanks-length, IsShorter, fails_too,
  takes, separator-IsShorter, key_colon-IsShorter, value_at-IsWithin,
}

short-IsWithin {ℓ κ} :
    {A : Type ℓ} {B : Type κ} (m n : ℕ) (o : Option (A × Bytes))
    (k : A → Bytes → Option (B × Bytes))
    → IsShorter m o
    → ((a : A) (rest : Bytes) → length rest < m → IsWithin n (k a rest))
    → let r : Option (B × Bytes) = elim o [ none ↦ none | some (a, rest) ↦ k a rest ] in
      IsWithin n r
short-IsWithin m n _ k fails_too h = fails
short-IsWithin m n _ k (takes a rest l) h = h a rest l

more-IsWithin {ℓ} :
    {A : Type ℓ} (n : ℕ) (more : Bool) (x y : Option (A × Bytes))
    → IsWithin n x
    → IsWithin n y
    → let r : Option (A × Bytes) = elim more [ true ↦ x | false ↦ y ] in IsWithin n r
more-IsWithin n true x y h k = h
more-IsWithin n false x y h k = k

mutual
  unfolding parse_val parse_members parse_elements when_spent

  pub parse_val-IsWithin : (fuel : ℕ) (s : Bytes) → IsWithin (length s) (parse_val none fuel s)
  parse_val-IsWithin zero s = fails
  parse_val-IsWithin (suc fuel) s =
      IsWithin-le (length (skip_blanks s)) (length s) _ (skip_blanks-length s) (
        value_at-IsWithin (parse_members none fuel no_members) (parse_elements none fuel no_vals)
          (skip_blanks s) (λ u. parse_members-IsWithin fuel no_members u)
          (λ u. parse_elements-IsWithin fuel no_vals u))

  parse_members-IsWithin :
      (fuel : ℕ) (o : Members) (s : Bytes) → IsWithin (length s) (parse_members none fuel o s)
  parse_members-IsWithin zero o s = fails
  parse_members-IsWithin (suc fuel) o s =
      short-IsWithin (length s) (length s) (key_colon s) _ (key_colon-IsShorter s) (λ key rest l.
        bind-IsWithin (length rest) (length s) (parse_val none fuel rest) _
          (parse_val-IsWithin fuel rest)
          (λ val behind m.
            short-IsWithin (length behind) (length s) (separator b'}' behind) _
              (separator-IsShorter b'}' behind)
              (λ more left n.
                more-IsWithin (length s) more _ _
                  (IsWithin-le (length left) (length s) _ (omega arith)
                    (parse_members-IsWithin fuel (put_member key val o) left))
                  (leaves _ left (omega arith)))))

  parse_elements-IsWithin :
      (fuel : ℕ) (a : JVals) (s : Bytes) → IsWithin (length s) (parse_elements none fuel a s)
  parse_elements-IsWithin zero a s = fails
  parse_elements-IsWithin (suc fuel) a s =
      bind-IsWithin (length s) (length s) (parse_val none fuel s) _ (parse_val-IsWithin fuel s)
        (λ val behind m.
          short-IsWithin (length behind) (length s) (separator b']' behind) _
            (separator-IsShorter b']' behind)
            (λ more left n.
              more-IsWithin (length s) more _ _
                (IsWithin-le (length left) (length s) _ (omega arith)
                  (parse_elements-IsWithin fuel (push_val val a) left))
                (leaves _ left (omega arith))))
