-- ===== src/Shared/Effects.antt =====
-- Python code that changes state and may raise: what was written before a raise stays written.
use mathlib.Core.Bool.{Bool, true, false}

-- What stops a call. `failure` is an `Exception`; `interrupt` is a `BaseException` that is no
-- `Exception`; `crash` is the end of the process, which no handler sees.
pub data Signal : Type 0 where
  failure interrupt crash : Signal

pub data Out (A : Type 0) : Type 0 where
  ok : A → Out A
  raised : Signal → Out A

abbrev pub M : Type 0 → Type 0 → Type 0
M S A = S → Out A × S

module _ {S A : Type 0} where
  abbrev pub pure : A → M S A
  pure a s = (ok a, s)

  abbrev pub raise : Signal → M S A
  raise e s = (raised e, s)

module _ {S A B : Type 0} where
  abbrev pub proceed : Out A → (A → M S B) → M S B
  proceed (ok a) f s = f a s
  proceed (raised e) f s = (raised e, s)

  infixl 10 ◌>>=◌ ◌>>◌
  abbrev pub ◌>>=◌ : M S A → (A → M S B) → M S B
  ◌>>=◌ m f s = proceed (m s).0 f (m s).1

  abbrev pub ◌>>◌ : M S A → M S B → M S B
  m >> n = m >>= λ _. n

abbrev pub Done : Type 0
Done = Unit {0}

-- `if test: raise ValueError(...)`
abbrev pub refuse_if : {S : Type 0} → Bool → M S Done
refuse_if true s = (raised failure, s)
refuse_if false s = (ok tt, s)
