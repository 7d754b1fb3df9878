-- ===== src/Daemon/Signals.antt =====
-- bin/edna_main.cpp: the handlers of signals, set and removed.
use edna.Base.{ℕ, ◌≡◌, refl, ◌∙◌, Bool, true, false, ◌||◌, List, [], ◌∷◌, done, ◌==◌, if◌then◌else◌}
use edna.Daemon.{
  Signal, sigabrt, sigbus, sigfpe, sigill, sigpipe, sigquit, sigsegv, sigsys, sigxcpu, sigxfsz,
  sigterm, sigint, Handler, by_default, unexpected, term, unexpected_signals, term_signals, Host,
  signals, install_handlers, remove_handlers,
}

abbrev pub number_of : Signal → ℕ
number_of sigabrt = 0
number_of sigbus = 1
number_of sigfpe = 2
number_of sigill = 3
number_of sigpipe = 4
number_of sigquit = 5
number_of sigsegv = 6
number_of sigsys = 7
number_of sigxcpu = 8
number_of sigxfsz = 9
number_of sigterm = 10
number_of sigint = 11

abbrev is_among : Signal → List Signal → Bool
is_among s [] = false
is_among s (t ∷ ts) = (number_of s == number_of t) || is_among s ts

module _ {W : Type 0} (host : Host W) where
  -- signal(2) sets the handler of one signal; closing a file sets none.
  pub record IsSignals (handler_of : Signal → W → Handler) : Type 0 where
    pub signal_sets :
        (s t : Signal) (h : Handler) (w : W)
        → handler_of s (host.signal t h w)
          ≡ (if number_of s == number_of t then h else handler_of s w)
    pub fclose_keeps :
        (s : Signal) (f : ℕ) (w : W) → handler_of s (host.fclose f w) ≡ handler_of s w

  abbrev pub all_set : Handler → List Signal → W → W
  all_set h [] w = w
  all_set h (s ∷ ss) w = all_set h ss (host.signal s h w)

  signals_lem :
      (h : Handler) (ss : List Signal) (w : W) → signals host h ss w ≡ done (tt, all_set h ss w)
  unfolding signals
  signals_lem h [] w = refl
  signals_lem h (s ∷ ss) w = signals_lem h ss (host.signal s h w)

  -- The world with all handlers installed.
  abbrev pub with_handlers : W → W
  with_handlers w = all_set term term_signals (all_set unexpected unexpected_signals w)

  abbrev pub without_handlers : W → W
  without_handlers w = all_set by_default term_signals (all_set by_default unexpected_signals w)

  pub install_lem : (w : W) → install_handlers host w ≡ done (tt, with_handlers w)
  unfolding install_handlers
  install_lem w = rw (signals_lem unexpected unexpected_signals w) (signals_lem term term_signals _)

  pub remove_lem : (w : W) → remove_handlers host w ≡ done (tt, without_handlers w)
  unfolding remove_handlers
  remove_lem w =
      rw (signals_lem by_default unexpected_signals w) (signals_lem by_default term_signals _)

  module _ (handler_of : Signal → W → Handler) (law : IsSignals handler_of) where
    either :
        (b c : Bool) (h x y : Handler)
        → x ≡ (if c then h else y)
        → (if b then h else x) ≡ (if c || b then h else y)
    either true true h x y e = refl
    either false true h x y e = e
    either b false h x y e = rw e

    all_set-handler :
        (h : Handler) (ss : List Signal) (s : Signal) (w : W)
        → handler_of s (all_set h ss w) ≡ (if is_among s ss then h else handler_of s w)
    all_set-handler h [] s w = refl
    all_set-handler h (t ∷ ss) s w =
        all_set-handler h ss s (host.signal t h w)
        ∙ either (is_among s ss) (number_of s == number_of t) h _ (handler_of s w)
            (law.signal_sets s t h w)

    -- main installs a handler for each of the signals.
    every_signal :
        (s : Signal) (h x : Handler)
        → (if is_among s term_signals then h else if is_among s unexpected_signals then h else x)
          ≡ h
    every_signal sigabrt h x = refl
    every_signal sigbus h x = refl
    every_signal sigfpe h x = refl
    every_signal sigill h x = refl
    every_signal sigpipe h x = refl
    every_signal sigquit h x = refl
    every_signal sigsegv h x = refl
    every_signal sigsys h x = refl
    every_signal sigxcpu h x = refl
    every_signal sigxfsz h x = refl
    every_signal sigterm h x = refl
    every_signal sigint h x = refl

    pub removed : (s : Signal) (w : W) → handler_of s (without_handlers w) ≡ by_default
    removed s w =
        rw
          (
            all_set-handler by_default term_signals s (all_set by_default unexpected_signals w),
            all_set-handler by_default unexpected_signals s w,
          )
          (every_signal s by_default (handler_of s w))
