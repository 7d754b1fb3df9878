-- ===== src/Base/Worlds.antt =====
-- Computations over a world that the program shares with the operating system.
use mathlib.Core.Path.{◌≡◌, refl}
use edna.Base.Tests.{if◌then◌else◌}
use mathlib.Core.Bool.{Bool, true, false}
-- `spin` says that a loop used up its fuel, and `fault` that the code ran into undefined
-- behaviour, such as an index past the end of a vector.
use mathlib.Core.Option.{Option, none, some}

pub data Run {ℓ} (A : Type ℓ) : Type ℓ where
  done : A → Run A
  spin : Run A
  fault : Run A

abbrev pub Io : Type 0 → Type 0 → Type 0
Io W A = W → Run (A × W)

abbrev pub pure : {W A : Type 0} → A → Io W A
pure a w = done (a, w)

-- A call of the operating system always returns.
abbrev pub call : {W A : Type 0} → (W → A × W) → Io W A
call f w = done (f w)

abbrev pub run : {W : Type 0} → (W → W) → Io W (Unit {0})
run f w = done (tt, f w)

abbrev pub bind_run {ℓ κ} : {A : Type ℓ} {B : Type κ} → Run A → (A → Run B) → Run B
bind_run (done a) f = f a
bind_run spin f = spin
bind_run fault f = fault

infixl 5 ◌>>=◌ ◌>>◌
abbrev pub ◌>>=◌ : {W A B : Type 0} → Io W A → (A → Io W B) → Io W B
◌>>=◌ m f w = bind_run (m w) (λ p. f p.0 p.1)

abbrev pub ◌>>◌ : {W B : Type 0} → Io W (Unit {0}) → Io W B → Io W B
m >> k = m >>= λ _. k

-- If the computation returns, its result and the world that it leaves satisfy the condition.
unfoldable pub Ensures : {W A : Type 0} → (A → W → Type 0) → Run (A × W) → Type 0
Ensures Q (done (a, w)) = Q a w
Ensures Q spin = Unit {0}
Ensures Q fault = Unit {0}

pub bind-Ensures :
    {W A B : Type 0} (Q : A → W → Type 0) (R : B → W → Type 0) (m : Io W A) (f : A → Io W B) (w : W)
    → Ensures Q (m w)
    → ((a : A) (w' : W) → Q a w' → Ensures R (f a w'))
    → Ensures R ((m >>= f) w)
unfolding Ensures
bind-Ensures {W} {A} {B} Q R m f w h k = on_result (m w) h
  where
    on_result : (r : Run (A × W)) → Ensures Q r → Ensures R (bind_run r (λ p. f p.0 p.1))
    on_result (done (a, w')) h' = k a w' h'
    on_result spin h' = tt
    on_result fault h' = tt

pub if-Ensures :
    {W A : Type 0} (Q : A → W → Type 0) (b : Bool) (x y : Io W A) (w : W)
    → Ensures Q (x w)
    → Ensures Q (y w)
    → Ensures Q ((if b then x else y) w)
if-Ensures Q true x y w h k = h
if-Ensures Q false x y w h k = k

pub option-Ensures :
    {W A B : Type 0} (Q : B → W → Type 0) (o : Option A) (x : Io W B) (y : A → Io W B) (w : W)
    → (o ≡ none → Ensures Q (x w))
    → ((a : A) → o ≡ some a → Ensures Q (y a w))
    → Ensures Q ((elim o as (λ k. Io W B) [ none ↦ x | some a ↦ y a ]) w)
option-Ensures Q none x y w h k = h refl
option-Ensures Q (some a) x y w h k = k a refl

-- Where nothing need be known of the first computation.
pub then-Ensures :
    {W A B : Type 0} (R : B → W → Type 0) (m : Io W A) (f : A → Io W B) (w : W)
    → ((a : A) (w' : W) → Ensures R (f a w'))
    → Ensures R ((m >>= f) w)
unfolding Ensures
then-Ensures {W} {A} {B} R m f w k = on_result (m w)
  where
    on_result : (r : Run (A × W)) → Ensures R (bind_run r (λ p. f p.0 p.1))
    on_result (done (a, w')) = k a w'
    on_result spin = tt
    on_result fault = tt

pub done-Ensures :
    {W A : Type 0} (Q : A → W → Type 0) (a : A) (w : W) → Q a w → Ensures Q (done (a, w))
unfolding Ensures
done-Ensures Q a w h = h

pub Ensures-done :
    {W A : Type 0} (Q : A → W → Type 0) (r : Run (A × W)) (a : A) (w : W)
    → Ensures Q r
    → r ≡ done (a, w)
    → Q a w
unfolding Ensures
Ensures-done Q r a w h e = rw e at h

pub mono-Ensures :
    {W A : Type 0} (Q R : A → W → Type 0) (r : Run (A × W))
    → ((a : A) (w : W) → Q a w → R a w)
    → Ensures Q r
    → Ensures R r
unfolding Ensures
mono-Ensures Q R (done (a, w)) k h = k a w h
mono-Ensures Q R spin k h = tt
mono-Ensures Q R fault k h = tt

-- A test that fails.
pub else-Ensures :
    {W A : Type 0} (Q : A → W → Type 0) (b : Bool) (x y : Io W A) (w : W)
    → b ≡ false
    → Ensures Q (y w)
    → Ensures Q ((if b then x else y) w)
else-Ensures Q b x y w e h = rw e h

-- Two properties of the result.
pub both-Ensures :
    {W A : Type 0} (Q R : A → W → Type 0) (r : Run (A × W))
    → Ensures Q r
    → Ensures R r
    → Ensures (λ a w. Q a w × R a w) r
unfolding Ensures
both-Ensures Q R (done (a, w)) h k = (h, k)
both-Ensures Q R spin h k = tt
both-Ensures Q R fault h k = tt

-- The world after a computation that returns has the property.
abbrev pub After : {W A : Type 0} → (W → Type 0) → Run (A × W) → Type 0
After P = Ensures (λ a w. P w)

module _ {W A : Type 0} (P : W → Type 0) where
  pub done-After : (a : A) (w : W) → P w → After P (done (a, w))
  done-After a w h = done-Ensures (λ a' w'. P w') a w h

  pub bind-After :
      {B : Type 0} (m : Io W B) (f : B → Io W A) (w : W)
      → After P (m w)
      → ((b : B) (w' : W) → P w' → After P (f b w'))
      → After P ((m >>= f) w)
  bind-After m f w h k = bind-Ensures (λ b w'. P w') (λ a w'. P w') m f w h k

  pub if-After :
      (b : Bool) (x y : Io W A) (w : W)
      → After P (x w)
      → After P (y w)
      → After P ((if b then x else y) w)
  if-After b x y w h k = if-Ensures (λ a w'. P w') b x y w h k

  pub option-After :
      {B : Type 0} (o : Option B) (x : Io W A) (y : B → Io W A) (w : W)
      → After P (x w)
      → ((b : B) → After P (y b w))
      → After P ((elim o as (λ k. Io W A) [ none ↦ x | some b ↦ y b ]) w)
  option-After none x y w h k = h
  option-After (some b) x y w h k = k b
