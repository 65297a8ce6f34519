-- ===== src/RingDemo.antt =====
-- The program of 20180720ringbuffer/main.c: one thread puts numbers into a ring buffer, another
-- takes them out, and the user stops and starts the first. The ring buffer is a copy of another
-- project's, and a record of functions here; a step is one call of it with what the thread does
-- beside it.
pub mod Arrive
mod Samples
use small_project_for_life_w.Base.{
  ℕ, zero, suc, ◌+◌, ◌-◌, ◌*◌, ◌%◌, Bool, true, false, ◌&&◌, List, [], ◌∷◌, ◌++◌, length, take,
  ◌==◌, if◌then◌else◌, ltb, ◌≡◌,
}

abbrev pub Bytes : Type 0
Bytes = List ℕ

-- `ring_buffer_put` returns how many bytes it has put, `ring_buffer_get` what it has taken.
pub record RingApi (Q : Type 0) : Type 0 where
  pub ring_buffer_put : Bytes → Q → ℕ × Q
  pub ring_buffer_get : ℕ → Q → Bytes × Q

abbrev pub size : ℕ
size = 32

-- consecutive numbers in `uint8_t`
pub count_up : (n x : ℕ) → Bytes
count_up zero x = []
count_up (suc n) x = x % 256 ∷ count_up n (x + 1)

-- `for( i=0; i<32; i++ ) data[i] = 1+i+32*j;`
pub data_of : ℕ → Bytes
unfolding count_up
data_of j = count_up size (1 + size * j)

-- The program, with the bytes that the buffer took, those that it did not, and those that the
-- second thread got.
pub record Demo (Q : Type 0) : Type 0 where
  pub buffer : Q
  pub thread_buffer_put : Bool
  pub overrun : Bool
  pub j : ℕ
  pub accepted : Bytes
  pub lost : ℕ
  pub got : Bytes

pub same_word : Bytes → Bytes → Bool
same_word [] [] = true
same_word [] (d ∷ t) = false
same_word (c ∷ s) [] = false
same_word (c ∷ s) (d ∷ t) = c == d && same_word s t

abbrev pub stop_word : Bytes
stop_word = 115 ∷ 116 ∷ 111 ∷ 112 ∷ []

abbrev pub start_word : Bytes
start_word = 115 ∷ 116 ∷ 97 ∷ 114 ∷ 116 ∷ []

-- a round of `main`; a word of ten bytes runs over the end of `chartemp`
pub main_round : {Q : Type 0} → Bytes → Demo Q → Demo Q
unfolding same_word
main_round word s =
    if ltb (length word) 10
    then if same_word word stop_word
      then record s { thread_buffer_put = false }
      else if same_word word start_word
      then record s { thread_buffer_put = true }
      else s
    else record s { overrun = true }

module _ {Q : Type 0} (api : RingApi Q) where
  pub pthread_func_1 : Demo Q → Demo Q
  unfolding data_of
  pthread_func_1 s =
      if s.thread_buffer_put
      then (let bytes = data_of s.j in
          let (ret, q) = api.ring_buffer_put bytes s.buffer in
          record s {
            buffer = q;
            j = s.j + 1;
            accepted = s.accepted ++ take ret bytes;
            lost = s.lost + (size - ret);
          })
      else s

  pub pthread_func_2 : Demo Q → Demo Q
  pthread_func_2 s =
      let (bytes, q) = api.ring_buffer_get size s.buffer in
      record s { buffer = q; got = s.got ++ bytes }

  pub data Step (s : Demo Q) : Demo Q → Type 0 where
    by_1 : s.overrun ≡ false → Step s (pthread_func_1 s)
    by_2 : s.overrun ≡ false → Step s (pthread_func_2 s)
    by_main : (word : Bytes) → s.overrun ≡ false → Step s (main_round word s)

  pub data Reach (s : Demo Q) : Demo Q → Type 0 where
    here : Reach s s
    next : {t u : Demo Q} → Reach s t → Step t u → Reach s u

abbrev pub started : {Q : Type 0} → Q → Demo Q
started q = record {
  buffer = q;
  thread_buffer_put = true;
  overrun = false;
  j = 0;
  accepted = [];
  lost = 0;
  got = [];
}
