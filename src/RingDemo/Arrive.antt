-- ===== src/RingDemo/Arrive.antt =====
-- What the second thread of 20180720ringbuffer/main.c gets.
use small_project_for_life_w.Base.{
  ℕ, zero, suc, ◌+◌, ◌*◌, ◌%◌, ◌≤◌, ◌≡◌, refl, sym, ap, ◌∙◌, Bool-cases, inl, inr, [], ◌∷◌, ◌++◌,
  append_assoc, arith, length, length-append, take,
}
use small_project_for_life_w.RingDemo.{
  Bytes, RingApi, size, count_up, data_of, Demo, main_round, pthread_func_1, pthread_func_2, Step,
  by_1, by_2, by_main, Reach, here, next, started,
}

-- `view` is what is in a buffer, the oldest byte first: `ring_buffer_put` appends as much as it
-- says, and `ring_buffer_get` takes from the front.
pub record Documented {Q : Type 0} (api : RingApi Q) (view : Q → Bytes) : Type 0 where
  pub puts :
      (bytes : Bytes) (q : Q)
      → let (ret, q') = api.ring_buffer_put bytes q in
        (ret ≤ length bytes) × (view q' ≡ view q ++ take ret bytes)
  pub gets :
      (n : ℕ) (q : Q) → let (bytes, q') = api.ring_buffer_get n q in view q ≡ bytes ++ view q'

length-count_up : (n x : ℕ) → length (count_up n x) ≡ n
unfolding count_up
length-count_up zero x = refl
length-count_up (suc n) x = ap suc (length-count_up n (x + 1))

count_up-append : (m n x : ℕ) → count_up (m + n) x ≡ count_up m x ++ count_up n (x + m)
unfolding count_up
count_up-append zero n x =
    ap (λ k. count_up k x) (omega arith) ∙ ap (λ y. count_up n y) (omega arith)
count_up-append (suc m) n x =
    let longer : suc m + n ≡ suc (m + n) = omega arith in
    let behind : x + 1 + m ≡ x + suc m = omega arith in
    ap (λ k. count_up k x) longer
    ∙ ap (λ l. x % 256 ∷ l) (count_up-append m n (x + 1))
    ∙ ap (λ y. count_up (suc m) x ++ count_up n y) behind

take_all : (l : Bytes) → take (length l) l ≡ l
take_all [] = refl
take_all (c ∷ l) = ap (λ m. c ∷ m) (take_all l)

length-take_le : (n : ℕ) (l : Bytes) → n ≤ length l → length (take n l) ≡ n
length-take_le zero l h = refl
length-take_le (suc n) [] h = absurd (omega arith)
length-take_le (suc n) (c ∷ l) h = ap suc (length-take_le n l (omega arith))

-- A thread's data, as far as `ret` bytes of it are put, behind the data before.
grown :
    (j ret : ℕ) (taken : Bytes)
    → size ≤ ret
    → ret ≤ size
    → taken ≡ count_up (size * j) 1
    → taken ++ take ret (data_of j) ≡ count_up (size * (j + 1)) 1
unfolding data_of
grown j ret taken low high e =
    let bytes = count_up size (1 + size * j) in
    let all : ret ≡ length bytes = omega (arith, length-count_up size (1 + size * j)) in
    let more : size * j + size ≡ size * (j + 1) = omega arith in
    ap (λ n. taken ++ take n bytes) all
    ∙ ap (λ l. taken ++ l) (take_all bytes)
    ∙ ap (λ l. l ++ bytes) e
    ∙ sym (count_up-append (size * j) size 1)
    ∙ ap (λ n. count_up n 1) more

module _ {Q : Type 0} (api : RingApi Q) (view : Q → Bytes) (doc : Documented api view) where
  pub record Inv (s : Demo Q) : Type 0 where
    pub fifo : s.got ++ view s.buffer ≡ s.accepted
    pub counted : length s.accepted + s.lost ≡ size * s.j
    pub whole : s.lost ≡ 0 → s.accepted ≡ count_up (size * s.j) 1

  put-Inv : (s : Demo Q) → Inv s → Inv (pthread_func_1 api s)
  unfolding pthread_func_1
  put-Inv s i =
      let bytes = data_of s.j in
      let (ret, q) = api.ring_buffer_put bytes s.buffer in
      let (fits, put) = doc.puts bytes s.buffer in
      let full : length bytes ≡ size = unfold data_of in length-count_up size (1 + size * s.j) in
      elim (Bool-cases s.thread_buffer_put) [
        | inl on ↦
            rw (on, pthread_func_1)
              (record {
                fifo =
                    ap (λ l. s.got ++ l) put
                    ∙ sym (append_assoc s.got (view s.buffer) (take ret bytes))
                    ∙ ap (λ l. l ++ take ret bytes) i.fifo;
                counted = omega (
                  arith,
                  length-append s.accepted (take ret bytes),
                  length-take_le ret bytes fits,
                  full,
                  fits,
                  i.counted,
                );
                whole = λ none.
                    grown s.j ret s.accepted (omega (arith, none, full, fits))
                      (omega (arith, full, fits)) (i.whole (omega (arith, none)));
              })
        | inr off ↦
            rw (off, pthread_func_1)
              (record { fifo = i.fifo; counted = i.counted; whole = i.whole })
      ]

  get-Inv : (s : Demo Q) → Inv s → Inv (pthread_func_2 api s)
  unfolding pthread_func_2
  get-Inv s i =
      let (bytes, q) = api.ring_buffer_get size s.buffer in
      record {
        fifo =
            append_assoc s.got bytes (view q)
            ∙ ap (λ l. s.got ++ l) (sym (doc.gets size s.buffer))
            ∙ i.fifo;
        counted = i.counted;
        whole = i.whole;
      }

  -- `main` changes none of it
  main-Inv : (word : Bytes) (s : Demo Q) → Inv s → Inv (main_round word s)
  unfolding main_round
  main-Inv word s i = record {
    fifo = ground (arith, i.fifo);
    counted = ground (arith, i.counted);
    whole = ground (arith, i.whole);
  }

  Step-Inv : {s t : Demo Q} → Step api s t → Inv s → Inv t
  Step-Inv {s} (by_1 r) i = put-Inv s i
  Step-Inv {s} (by_2 r) i = get-Inv s i
  Step-Inv {s} (by_main word r) i = main-Inv word s i

  Reach-Inv : {s t : Demo Q} → Inv s → Reach api s t → Inv t
  Reach-Inv i here = i
  Reach-Inv i (next run step) = Step-Inv step (Reach-Inv i run)

  -- If the ring buffer keeps what it takes, in order: from an empty buffer on, however the threads
  -- and the user take turns: the bytes got and those in the buffer are the bytes that it took, in
  -- order; with those that it did not take they are 32 for each round of the first thread; and
  -- while it has taken all, they count up from 1, modulo 256.
  pub numbers_arrive :
      (q : Q) (s : Demo Q)
      → view q ≡ []
      → Reach api (started q) s
      → (s.got ++ view s.buffer ≡ s.accepted)
        × (length s.accepted + s.lost ≡ size * s.j)
        × (s.lost ≡ 0 → s.got ++ view s.buffer ≡ count_up (size * s.j) 1)
  numbers_arrive q s empty run =
      let first_of_all : Inv (started q) = record {
        fifo = empty;
        counted = refl;
        whole = λ none. unfold count_up in refl;
      } in
      let i = Reach-Inv first_of_all run in (i.fifo, i.counted, λ none. i.fifo ∙ i.whole none)
