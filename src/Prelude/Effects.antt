-- ===== src/Prelude/Effects.antt =====
-- Calls that change a state and may raise: what was written before a raise stays written.
use mathlib.Core.Path.{◌≡◌, refl}
use hass_clips_manager.Prelude.Results.{Result, ok, err}

-- What a call leaves: a state, and what it returns or raises
pub data Reply (S E A : Type 0) : Type 0 where
  returned : S → A → Reply S E A
  raised : S → E → Reply S E A

abbrev pub Effect : Type 0 → Type 0 → Type 0 → Type 0
Effect S E A = S → Reply S E A

-- The state after a call
abbrev pub final : {S E A : Type 0} → Reply S E A → S
final (returned s a) = s
final (raised s e) = s

abbrev pub pass : {S E A : Type 0} → A → Effect S E A
pass a s = returned s a

abbrev pub raise : {S E A : Type 0} → E → Effect S E A
raise e s = raised s e

-- A call that writes nothing
abbrev pub outcome : {S E A : Type 0} → Result E A → Effect S E A
outcome (ok a) s = returned s a
outcome (err e) s = raised s e

-- What follows a call, unless it has raised
abbrev pub resume : {S E A B : Type 0} → (A → Effect S E B) → Reply S E A → Reply S E B
resume f (returned s a) = f a s
resume f (raised s e) = raised s e

infixl 5 ◌>>=◌ ◌>>◌
abbrev pub ◌>>=◌ : {S E A B : Type 0} → Effect S E A → (A → Effect S E B) → Effect S E B
(m >>= f) s = resume f (m s)

abbrev pub ◌>>◌ : {S E A B : Type 0} → Effect S E A → Effect S E B → Effect S E B
(m >> k) s = resume (λ _. k) (m s)

abbrev pub rescue : {S E A : Type 0} → (E → Effect S E A) → Reply S E A → Reply S E A
rescue h (returned s a) = returned s a
rescue h (raised s e) = h e s

-- `try: m` with `except Exception as exc: h(exc)`
abbrev pub catch : {S E A : Type 0} → Effect S E A → (E → Effect S E A) → Effect S E A
catch m h s = rescue h (m s)

abbrev pub settle : {S E A : Type 0} → Effect S E (Unit {0}) → Reply S E A → Reply S E A
settle k (returned s a) = resume (λ _. pass a) (k s)
settle k (raised s e) = resume (λ _. raise e) (k s)

-- `try: m` with `finally: k`, whose own raise replaces what m returns or raises
abbrev pub finally : {S E A : Type 0} → Effect S E A → Effect S E (Unit {0}) → Effect S E A
finally m k s = settle k (m s)

-- What holds after a call: Q of what it returns, and I where it raises.
module _ {S E : Type 0} where
  abbrev pub Post : {A : Type 0} → (S → Type 0) → (S → A → Type 0) → Reply S E A → Type 0
  Post I Q (returned s a) = Q s a
  Post I Q (raised s e) = I s

  -- The rule of sequence
  pub Post-resume :
      {A B : Type 0} (I : S → Type 0) (P : S → A → Type 0) (Q : S → B → Type 0)
      (f : A → Effect S E B) (r : Reply S E A)
      → Post I P r
      → ((a : A) (s : S) → P s a → Post I Q (f a s))
      → Post I Q (resume f r)
  Post-resume I P Q f (returned s a) p next = next a s p
  Post-resume I P Q f (raised s e) i next = i

  pub Post-map :
      {A : Type 0} (I : S → Type 0) (P Q : S → A → Type 0) (r : Reply S E A)
      → Post I P r
      → ((a : A) (s : S) → P s a → Q s a)
      → Post I Q r
  Post-map I P Q (returned s a) p weaker = weaker a s p
  Post-map I P Q (raised s e) i weaker = i

  pub Post-outcome :
      {A : Type 0} (I : S → Type 0) (Q : S → A → Type 0) (r : Result E A) (s : S)
      → I s
      → ((a : A) → r ≡ ok a → Q s a)
      → Post I Q (outcome r s)
  Post-outcome I Q (ok a) s i q = q a refl
  Post-outcome I Q (err e) s i q = i

  -- A handler starts from what holds where the call has raised.
  pub Post-rescue :
      {A : Type 0} (I J : S → Type 0) (Q : S → A → Type 0) (h : E → Effect S E A) (r : Reply S E A)
      → Post I Q r
      → ((e : E) (s : S) → I s → Post J Q (h e s))
      → Post J Q (rescue h r)
  Post-rescue I J Q h (returned s a) q handled = q
  Post-rescue I J Q h (raised s e) i handled = handled e s i

  pub Post-settle :
      {A : Type 0} (I J : S → Type 0) (Q : S → A → Type 0) (k : Effect S E (Unit {0}))
      (r : Reply S E A)
      → Post I Q r
      → ((a : A) (s : S) → Q s a → Post J (λ s' _. Q s' a) (k s))
      → ((s : S) → I s → Post J (λ s' _. J s') (k s))
      → Post J Q (settle k r)
  Post-settle I J Q k (returned s a) q kept raises =
      Post-resume J (λ s' _. Q s' a) Q (λ _. pass a) (k s) (kept a s q) (λ _ s' q'. q')
  Post-settle I J Q k (raised s e) i kept raises =
      Post-resume J (λ s' _. J s') Q (λ _. raise e) (k s) (raises s i) (λ _ s' j. j)
