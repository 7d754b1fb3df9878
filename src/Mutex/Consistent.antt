-- ===== src/Mutex/Consistent.antt =====
-- What holds of the places of the daemon's two threads together: who holds comm_mutex, and what
-- should_run says.
use edna.Base.{Bool, true, false, not, ◌&&◌, Option, none, some, ◌≡◌, refl, subst}
use edna.Mutex.{Who, comm_thread, emu_thread}
use edna.Mutex.Threads.{
  CommAt, selecting, ended, EmuAt, exchanging, Ending, not_called, returned, Threads,
}

abbrev pub comm_holds : CommAt → Bool
comm_holds selecting = true
comm_holds c = false

abbrev pub emu_holds : EmuAt → Bool
emu_holds exchanging = true
emu_holds e = false

abbrev pub is_alive : CommAt → Bool
is_alive ended = false
is_alive c = true

abbrev pub is_over : Ending → CommAt → Bool
is_over returned c = not (is_alive c)
is_over e c = true

abbrev pub is_running : Ending → Bool
is_running not_called = true
is_running e = false

-- Who has to hold the mutex.
abbrev pub holder : Bool → Bool → Option Who
holder true e = some comm_thread
holder false true = some emu_thread
holder false false = none

pub free_holder : (b : Bool) → holder false b ≡ none → b ≡ false
free_holder true h = cc h
free_holder false h = refl

pub comm_out : (b : Bool) → holder b false ≡ none → b ≡ false
comm_out true h = cc h
comm_out false h = refl

pub apart_left : (b : Bool) → (b && true) ≡ false → b ≡ false
apart_left true h = h
apart_left false h = refl

-- What holds of the result, if there is one.
abbrev pub Every : {A : Type 0} → (A → Type 0) → Option A → Type 0
Every P none = Unit {0}
Every P (some a) = P a

pub Every-some : {A : Type 0} (P : A → Type 0) (o : Option A) (a : A) → Every P o → o ≡ some a → P a
Every-some P o a h e = subst (Every P) e h

module _ {W : Type 0} (owner : W → Option Who) where
  -- The mutex is held by the thread that is at a place behind its lock, and there is one such thread at
  -- most; should_run is set until terminate is called, and terminate returns after the thread has ended.
  pub record AreConsistent (c : CommAt) (e : EmuAt) (n : Ending) (run : Bool) (w : W) : Type 0 where
    pub owned : owner w ≡ holder (comm_holds c) (emu_holds e)
    pub apart : (comm_holds c && emu_holds e) ≡ false
    pub cleared : run ≡ is_running n
    pub over : is_over n c ≡ true

  abbrev pub IsConsistent : Threads W → Type 0
  IsConsistent s = AreConsistent s.comm s.emu s.ending s.should_run s.world
