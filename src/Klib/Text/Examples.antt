-- ===== src/Klib/Text/Examples.antt =====
-- The string routines at small strings.
use husky_os.Base.{◌≡◌, refl, [], ◌∷◌, arith}
use husky_os.Klib.Text.Tokens.{tokens_of, join, tokens-join}

tokens-join_example :
    tokens_of 47 (join 47 ((97 ∷ []) ∷ (98 ∷ []) ∷ [])) ≡ (97 ∷ []) ∷ (98 ∷ []) ∷ []
tokens-join_example =
    tokens-join 47 ((97 ∷ []) ∷ (98 ∷ []) ∷ [])
      ((λ e. ground arith, (refl, tt)), ((λ e. ground arith, (refl, tt)), tt))
