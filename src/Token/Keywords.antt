-- ===== src/Token/Keywords.antt =====
-- The keyword table of src/lexer/token.rs read both ways.
use fly_lang.Prelude.{
  Bytes, bytes_eq, bytes_eq_iff, List, [], ◌∷◌, ◌≡◌, refl, ◌↔◌, Option, none, some, arith,
}
use fly_lang.Token.{TokenType, keyword, keyword_name, keyword_arms, select}

abbrev ReadsBack : TokenType → Option Bytes → Type 0
ReadsBack t none = Unit
ReadsBack t (some k) = keyword k ≡ some t

keyword_name-ReadsBack : (t : TokenType) → ReadsBack t (keyword_name t)
unfolding keyword keyword_name select bytes_eq
keyword_name-ReadsBack TokenType.def = refl
keyword_name-ReadsBack TokenType.class = refl
keyword_name-ReadsBack TokenType.if_ = refl
keyword_name-ReadsBack TokenType.elif = refl
keyword_name-ReadsBack TokenType.else_ = refl
keyword_name-ReadsBack TokenType.for = refl
keyword_name-ReadsBack TokenType.while = refl
keyword_name-ReadsBack TokenType.return = refl
keyword_name-ReadsBack TokenType.raise = refl
keyword_name-ReadsBack TokenType.try = refl
keyword_name-ReadsBack TokenType.except = refl
keyword_name-ReadsBack TokenType.finally = refl
keyword_name-ReadsBack TokenType.pass = refl
keyword_name-ReadsBack TokenType.break = refl
keyword_name-ReadsBack TokenType.continue = refl
keyword_name-ReadsBack TokenType.import = refl
keyword_name-ReadsBack TokenType.from = refl
keyword_name-ReadsBack TokenType.as_ = refl
keyword_name-ReadsBack TokenType.in_ = refl
keyword_name-ReadsBack TokenType.not_ = refl
keyword_name-ReadsBack TokenType.and_ = refl
keyword_name-ReadsBack TokenType.or_ = refl
keyword_name-ReadsBack TokenType.is = refl
keyword_name-ReadsBack TokenType.none_ = refl
keyword_name-ReadsBack TokenType.true_ = refl
keyword_name-ReadsBack TokenType.false_ = refl
keyword_name-ReadsBack TokenType.del = refl
keyword_name-ReadsBack TokenType.assert = refl
keyword_name-ReadsBack TokenType.with = refl
keyword_name-ReadsBack TokenType.yield = refl
keyword_name-ReadsBack TokenType.global = refl
keyword_name-ReadsBack TokenType.nonlocal = refl
keyword_name-ReadsBack TokenType.lambda = refl
keyword_name-ReadsBack TokenType.async = refl
keyword_name-ReadsBack TokenType.await = refl
keyword_name-ReadsBack TokenType.safe = refl
keyword_name-ReadsBack TokenType.only = refl
keyword_name-ReadsBack TokenType.lock = refl
keyword_name-ReadsBack TokenType.mask = refl
keyword_name-ReadsBack TokenType.cage = refl
keyword_name-ReadsBack TokenType.guard = refl
keyword_name-ReadsBack TokenType.seal = refl
keyword_name-ReadsBack TokenType.trace = refl
keyword_name-ReadsBack _ = tt

-- Each arm's type has the arm's string for its name.
abbrev AreNamed : List (Bytes × TokenType) → Type 0
AreNamed [] = Unit
AreNamed ((k, t) ∷ arms) = (keyword_name t ≡ some k) × AreNamed arms

keyword_arms-AreNamed : AreNamed keyword_arms
unfolding keyword_name
keyword_arms-AreNamed = assumption (refl, tt)

select-AreNamed :
    (arms : List (Bytes × TokenType)) (k : Bytes) (t : TokenType)
    → AreNamed arms
    → select arms k ≡ some t
    → keyword_name t ≡ some k
unfolding select
select-AreNamed [] k t named h = cc
select-AreNamed ((j, u) ∷ arms) k t named h =
    ground (arith, bytes_eq_iff j k, select-AreNamed arms k t named.1)

-- A string is read as a keyword exactly when it is the name of that keyword.
pub keyword_iff : (k : Bytes) (t : TokenType) → (keyword k ≡ some t) ↔ (keyword_name t ≡ some k)
keyword_iff k t = (
  unfold keyword in select-AreNamed keyword_arms k t keyword_arms-AreNamed,
  λ h. rw h at (keyword_name-ReadsBack t),
)
