-- ===== src/Sem/Signals.antt =====
-- The signals of 20180727sem-sig-test/main.c: what `main` sets up for SIGINT and SIGTERM, and its
-- loop.
use small_project_for_life_w.Base.{
  ◌≡◌, refl, ap, Bool, true, false, ◌&&◌, List, [], ◌∷◌, ℕ, ◌==◌, if◌then◌else◌,
}

pub data Disposition : Type 0 where
  by_default : Disposition
  ignored : Disposition
  sig_int_handler : Disposition
  sig_term_handle : Disposition

pub data Signal : Type 0 where
  sig_int : Signal
  sig_term : Signal

pub record Process : Type 0 where
  pub on_int : Disposition
  pub on_term : Disposition
  pub alive : Bool

-- `if (old_action.sa_handler != SIG_IGN) sigaction(..., &action, NULL);`
pub install : Disposition → Disposition → Disposition
install handler ignored = ignored
install handler by_default = handler
install handler sig_int_handler = handler
install handler sig_term_handle = handler

-- what `main` does with the dispositions that the process was started with
pub set_up : (on_int on_term : Disposition) → Process
unfolding install
set_up on_int on_term = record {
  on_int = install sig_int_handler on_int;
  on_term = install sig_term_handle on_term;
  alive = true;
}

-- `sig_int_handler` only prints; `sig_term_handle` ends the program, as both signals do by default.
pub delivered : Disposition → Process → Process
delivered by_default p = record p { alive = false }
delivered ignored p = p
delivered sig_int_handler p = p
delivered sig_term_handle p = record p { alive = false }

pub raised : Signal → Process → Process
unfolding delivered
raised sig_int p = delivered p.on_int p
raised sig_term p = delivered p.on_term p

pub is_word : List ℕ → List ℕ → Bool
is_word [] [] = true
is_word [] (d ∷ t) = false
is_word (c ∷ s) [] = false
is_word (c ∷ s) (d ∷ t) = c == d && is_word s t

abbrev pub kill_word : List ℕ
kill_word = 107 ∷ 105 ∷ 108 ∷ 108 ∷ []

-- a word typed
pub typed : List ℕ → Process → Process
unfolding is_word raised
typed word p = if is_word word kill_word then raised sig_term p else p

abbrev is_ignored : Disposition → Bool
is_ignored by_default = false
is_ignored ignored = true
is_ignored sig_int_handler = false
is_ignored sig_term_handle = false

int_survived : (d : Disposition) (p : Process) → delivered (install sig_int_handler d) p ≡ p
unfolding install delivered
int_survived by_default p = refl
int_survived ignored p = refl
int_survived sig_int_handler p = refl
int_survived sig_term_handle p = refl

term_survived :
    (d : Disposition) (p : Process)
    → p.alive ≡ true
    → (delivered (install sig_term_handle d) p).alive ≡ is_ignored d
unfolding install delivered
term_survived by_default p e = refl
term_survived ignored p e = e
term_survived sig_int_handler p e = refl
term_survived sig_term_handle p e = refl

-- SIGINT does not end the program; SIGTERM and the word "kill" do, unless the program was started
-- with SIGTERM ignored.
pub raised-alive :
    (on_int on_term : Disposition)
    → ((raised sig_int (set_up on_int on_term)).alive ≡ true)
      × ((raised sig_term (set_up on_int on_term)).alive ≡ is_ignored on_term)
      × (typed kill_word (set_up on_int on_term) ≡ raised sig_term (set_up on_int on_term))
unfolding raised set_up typed is_word
raised-alive on_int on_term =
    let p = set_up on_int on_term in
    (ap (λ (q : Process). q.alive) (int_survived on_int p), term_survived on_term p refl, refl)
