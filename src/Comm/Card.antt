-- ===== src/Comm/Card.antt =====
-- bin/edna_comm.cpp against a specification: a card is a partial map from AIDs to the sockets of
-- their holders, and a choice; how the registry is stored, and the order of its entries, is forgotten.
mod Runs
use edna.Base.{
  Bool, ℕ, ◌≡◌, refl, sym, subst, ap, ◌∙◌, true, false, List, Option, none, some, ℤ, int_eq,
  if◌then◌else◌,
}
use edna.Os.{Os, IsMutex}
use edna.Comm.{Comm, no_app_selected, init, select_by_aid}
use edna.Comm.AidMap.{find, assign}
use edna.Comm.AidMap.Laws.{same_key, find-assign}
use edna.Comm.AidMap.Sockets.{erase_socket, without, find-erase_socket}
use edna.Comm.Invariant.{IsWellFormed, Admits, refused, entered}
use edna.Comm.Selection.{
  chosen, asked_aid, selecting, chosen_asked, chosen-Chooses, Chooses-IsWellFormed,
}
use edna.Comm.Exchange.{after_exchange}
use edna.Comm.Serve.{Round, idle, joined, left}
use edna.Comm.Reach.{
  Call, exchanging, power, round, Step, Reach, Effect, exchanged, powered, served, Step-Effect,
  Reach-IsWellFormed,
}

pub record Card : Type 0 where
  pub holder : List ℕ → Option ℤ
  pub choice : ℤ

abbrev pub card_of : Comm → Card
card_of c = record {
  holder = λ aid. find aid c.application_registry;
  choice = c.selected_application;
}

-- The map without the holder that has the socket.
abbrev pub LosesSocket : ℤ → Card → (List ℕ → Option ℤ) → Type 0
LosesSocket fd s h = (aid : List ℕ) → h aid ≡ without fd (s.holder aid)

-- The choice turns to the holder of the AID that is asked for, if there is one.
abbrev pub turned : Card → Option ℤ → Card
turned s none = s
turned s (some fd) = record { holder = s.holder; choice = fd }

abbrev pub asked : Card → Option (List ℕ) → Card
asked s none = s
asked s (some aid) = turned s (s.holder aid)

-- What each call may do to a card. An exchange turns the choice to the holder of the AID that its
-- C-APDU asks for; if it fails, the chosen one is taken out then, and nothing is chosen. A power call undoes the choice. A round lets an application in at a
-- free AID, or takes one out, or does nothing; it leaves the choice.
pub data Move (s : Card) : Call → Card → Type 0 where
  succeeds :
      (apdu : List ℕ) {t : Card} → t ≡ asked s (asked_aid apdu) → Move s (exchanging apdu true) t
  fails :
      (apdu : List ℕ) {t : Card} {h : List ℕ → Option ℤ}
      → t ≡ asked s (asked_aid apdu)
      → LosesSocket t.choice t h
      → Move s (exchanging apdu false) (record { holder = h; choice = no_app_selected })
  resets : Move s power (record { holder = s.holder; choice = no_app_selected })
  idles : Move s round s
  enters :
      (aid : List ℕ) (fd : ℤ) {h : List ℕ → Option ℤ}
      → s.holder aid ≡ none
      → ((j : List ℕ) → h j ≡ (if same_key aid j then some fd else s.holder j))
      → Move s round (record { holder = h; choice = s.choice })
  leaves :
      (fd : ℤ) {h : List ℕ → Option ℤ}
      → LosesSocket fd s h
      → Move s round (record { holder = h; choice = s.choice })

Admits-Move : {c : Comm} {fd : ℤ} {d : Comm} → Admits c fd d → Move (card_of c) round (card_of d)
Admits-Move refused = idles
Admits-Move {c} {fd} (entered aid free) =
    enters aid fd free (λ j. find-assign j aid fd c.application_registry)

erased :
    (c : Comm) (fd : ℤ)
    → IsWellFormed c
    → LosesSocket fd (card_of c) (λ aid. find aid (erase_socket fd c.application_registry))
erased c fd v aid = find-erase_socket aid fd c.application_registry v.sorted v.injective

Round-Move :
    {c : Comm} {fd : ℤ} {d : Comm}
    → IsWellFormed c
    → Round c fd d
    → Move (card_of c) round (card_of d)
Round-Move v Round.idle = idles
Round-Move v (joined e a) = Admits-Move a
Round-Move {c} v (left s) = leaves s (erased c s v)

card_of-selecting : (c : Comm) (o : Option (List ℕ)) → card_of (selecting c o) ≡ asked (card_of c) o
unfolding select_by_aid
card_of-selecting c none = refl
card_of-selecting c (some aid) = on_find (find aid c.application_registry)
  where
    on_find :
        (o : Option ℤ)
        → card_of
            (elim o as (λ k. Comm) [ some fd ↦ record c { selected_application = fd } | none ↦ c ])
          ≡ turned (card_of c) o
    on_find none = refl
    on_find (some fd) = refl

after-Move :
    (s : Card) (apdu : List ℕ) (b : Bool) (d : Comm)
    → IsWellFormed d
    → card_of d ≡ asked s (asked_aid apdu)
    → Move s (exchanging apdu b) (card_of (after_exchange b d))
unfolding after_exchange
after-Move s apdu true d v e = succeeds apdu e
after-Move s apdu false d v e = fails apdu e (erased d d.selected_application v)

Effect-Move :
    {W : Type 0} (os : Os W) (held : W → Bool) (fuel : ℕ) {c d : Comm} {k : Call}
    → IsWellFormed c
    → Effect os held fuel c k d
    → Move (card_of c) k (card_of d)
Effect-Move os held fuel {c} v (exchanged apdu b fits e) =
    subst (λ (t : Comm). Move (card_of c) (exchanging apdu b) (card_of t)) (sym e)
      (after-Move (card_of c) apdu b (chosen c apdu)
        (Chooses-IsWellFormed (chosen-Chooses c apdu) v)
        (ap card_of (chosen_asked c apdu fits) ∙ card_of-selecting c (asked_aid apdu)))
Effect-Move os held fuel {c} v (powered e) =
    subst (λ (t : Comm). Move (card_of c) power (card_of t)) (sym e) resets
Effect-Move os held fuel v (served fd fresh r) = Round-Move v r

-- The object implements the card. If lock takes the mutex, unlock frees it and close leaves it: a call
-- of either thread that returns, in any state that such calls reach from the constructor, is one move
-- of the card that the object stands for, and of the kind of the call, for an exchange with its C-APDU
-- and its result; an exchange starts with the mutex free, and accept gives no descriptor in use.
pub Step-Move :
    {W : Type 0} (os : Os W) (held : W → Bool) (fuel : ℕ)
    → IsMutex os held
    → {c d : Comm} {k : Call} → Reach os held fuel c
    → Step os held fuel c k d
    → Move (card_of c) k (card_of d)
Step-Move os held fuel mutex r s =
    Effect-Move os held fuel (Reach-IsWellFormed os held fuel mutex r)
      (Step-Effect os held fuel mutex s)
