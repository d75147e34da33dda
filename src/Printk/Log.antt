-- ===== src/Printk/Log.antt =====
-- The log of early messages.
use arm64os.Common.{
  ℕ, zero, suc, ◌+◌, ◌≤◌, ◌<◌, ◌≡◌, refl, arith, ap, ◌∙◌, sym, true, false, leb, ◌==◌,
  if◌then◌else◌, List, [], ◌∷◌, ◌++◌, ◌⊎◌, length, ok, Returns, ◌>>=◌, inl, inr,
}
use arm64os.Printk.{Printk, log_buf_len, copy_at, read, printk, init_printk_done}

copy_at-other :
    (o : ℕ) (cs : List ℕ) (m : ℕ → ℕ) (j : ℕ)
    → (j < o) ⊎ (o + length cs ≤ j)
    → copy_at o cs m j ≡ m j
unfolding copy_at
copy_at-other o [] m j h = refl
copy_at-other o (c ∷ cs) m j h =
    let next : (j < suc o) ⊎ (suc o + length cs ≤ j) = elim h [
      | inl k ↦ inl (omega arith)
      | inr k ↦ inr (omega arith)
    ] in
    let away : (j == o) ≡ false = elim h [ inl k ↦ ground arith | inr k ↦ ground arith ] in
    copy_at-other (suc o) cs (λ i. if i == o then c else m i) j next ∙ (rw away)

-- Characters that two memories share are read the same.
read_ext :
    (o n : ℕ) (a b : ℕ → ℕ) → ((j : ℕ) → o ≤ j → j < o + n → a j ≡ b j) → read o n a ≡ read o n b
unfolding read
read_ext o zero a b same = refl
read_ext o (suc n) a b same = rw (same o (omega arith) (omega arith)) (
    ap (λ (r : List ℕ). b o ∷ r)
      (read_ext (suc o) n a b (λ j h k. same j (omega arith) (omega arith))))

read-copy_at : (o : ℕ) (cs : List ℕ) (m : ℕ → ℕ) → read o (length cs) (copy_at o cs m) ≡ cs
unfolding read copy_at
read-copy_at o [] m = refl
read-copy_at o (c ∷ cs) m =
    let first : copy_at (suc o) cs (λ j. if j == o then c else m j) o ≡ c =
      copy_at-other (suc o) cs (λ j. if j == o then c else m j) o (inl (omega arith))
      ∙ (ground arith) in
    rw first (ap (λ (r : List ℕ). c ∷ r) (read-copy_at (suc o) cs (λ j. if j == o then c else m j)))

read-append : (o a b : ℕ) (m : ℕ → ℕ) → read o (a + b) m ≡ read o a m ++ read (o + a) b m
unfolding read
read-append o zero b m =
    let e : o + 0 ≡ o = omega arith in rw e (ap (λ n. read o n m) (omega arith))
read-append o (suc a) b m =
    let e : o + suc a ≡ suc o + a = omega arith in
    let sum : suc a + b ≡ suc (a + b) = omega arith in
    rw (e, sum) (ap (λ (r : List ℕ). m o ∷ r) (read-append (suc o) a b m))

-- A message that is copied ahead of or behind a stretch leaves that stretch.
read-copy_at_other :
    (p n o : ℕ) (cs : List ℕ) (m : ℕ → ℕ)
    → (p + n ≤ o) ⊎ (o + length cs ≤ p)
    → read p n (copy_at o cs m) ≡ read p n m
read-copy_at_other p n o cs m apart = read_ext p n (copy_at o cs m) m (λ j lo hi.
    copy_at-other o cs m j (elim apart [ inl h ↦ inl (omega arith) | inr h ↦ inr (omega arith) ]))

-- No message was printed yet.
pub record IsEmpty (s : Printk) : Type 0 where
  pub down : s.ready ≡ false
  pub at_start : s.g_record ≡ 0
  pub no_text : s.g_record_len ≡ 0

logged : List ℕ → Printk → Printk
logged text s = record s {
  log_buf = copy_at s.g_record text s.log_buf;
  g_record = length text;
  g_record_len = s.g_record_len + length text;
}

printk-logged :
    (text : List ℕ) (s : Printk)
    → s.ready ≡ false
    → s.g_record + length text ≤ log_buf_len
    → printk text s ≡ ok (0, logged text s)
unfolding printk logged
printk-logged text s down small =
    let fits : leb (s.g_record + length text) log_buf_len ≡ true = ground arith in rw (down, fits)

init_printk_done_lem :
    (s : Printk)
    → s.g_record_len ≤ log_buf_len
    → init_printk_done s
      ≡ ok (record s {
        ready = true;
        g_record = 0;
        g_record_len = 0;
        console = s.console ++ read 0 s.g_record_len s.log_buf;
      })
unfolding init_printk_done
init_printk_done_lem s small =
    let fits : leb s.g_record_len log_buf_len ≡ true = ground arith in rw fits

-- The log after one and two messages, where it was empty.
module _ (a b : List ℕ) (s : Printk) (empty : IsEmpty s) where
  abbrev two : Printk
  two = record s {
    log_buf = copy_at (length a) b (copy_at 0 a s.log_buf);
    g_record = length b;
    g_record_len = length a + length b;
  }

  two-logged :
      length a + length b ≤ log_buf_len
      → (printk a s >>= λ (r : ℕ × Printk). printk b r.1) ≡ ok (0, two)
  unfolding logged
  two-logged small =
      let one : printk a s ≡ ok (0, logged a s) =
        printk-logged a s empty.down (omega (arith, empty.at_start)) in
      let next : printk b (logged a s) ≡ ok (0, logged b (logged a s)) =
        printk-logged b (logged a s) empty.down (omega arith) in
      let sum : 0 + length a + length b ≡ length a + length b = omega arith in
      rw (one, next, empty.at_start, empty.no_text, sum)

  read-two : read 0 (length a + length b) two.log_buf ≡ a ++ b
  read-two =
      let m = copy_at 0 a s.log_buf in
      let start : 0 + length a ≡ length a = omega arith in
      let first : read 0 (length a) (copy_at (length a) b m) ≡ a =
        read-copy_at_other 0 (length a) (length a) b m (inl (omega arith))
        ∙ read-copy_at 0 a s.log_buf in
      read-append 0 (length a) (length b) two.log_buf
      ∙ (rw (first, start, read-copy_at (length a) b m))

  -- Two messages that are printed before the console is ready, to an empty log that has room for
  -- them, are put on the console, in order, once it is ready.
  pub init_printk_done-printk :
      length a + length b ≤ log_buf_len
      → Returns
          (printk a s
            >>= (λ (r : ℕ × Printk). printk b r.1)
            >>= (λ (r : ℕ × Printk). init_printk_done r.1))
          (λ t. (t.ready ≡ true) × (t.console ≡ s.console ++ (a ++ b)))
  init_printk_done-printk small = (
    record two {
      ready = true;
      g_record = 0;
      g_record_len = 0;
      console = s.console ++ read 0 (length a + length b) two.log_buf;
    },
    rw (two-logged small) (init_printk_done_lem two small),
    (refl, ap (λ (r : List ℕ). s.console ++ r) read-two),
  )

  read-three :
      (c : List ℕ)
      → length b ≡ length a
      → length c ≡ length a
      → read 0 (length a + length b + length c) (copy_at (length b) c two.log_buf)
        ≡ (a ++ c) ++ read (length a + length a) (length a) s.log_buf
  read-three c same_b same_c =
      let n = length a in
      let m = copy_at n b (copy_at 0 a s.log_buf) in
      let start : 0 + (n + n) ≡ n + n = omega arith in
      let one : 0 + n ≡ n = omega arith in
      let first : read 0 n (copy_at n c m) ≡ a =
        read-copy_at_other 0 n n c m (inl (omega arith))
        ∙ read-copy_at_other 0 n n b (copy_at 0 a s.log_buf) (inl (omega arith))
        ∙ read-copy_at 0 a s.log_buf in
      let third : read n n (copy_at n c m) ≡ c =
        ap (λ k. read n k (copy_at n c m)) (sym same_c) ∙ read-copy_at n c m in
      let rest : read (n + n) n (copy_at n c m) ≡ read (n + n) n s.log_buf =
        read-copy_at_other (n + n) n n c m (inr (omega arith))
        ∙ read-copy_at_other (n + n) n n b (copy_at 0 a s.log_buf) (inr (omega arith))
        ∙ read-copy_at_other (n + n) n 0 a s.log_buf (inr (omega arith)) in
      let both : read 0 (n + n) (copy_at n c m) ≡ a ++ c =
        read-append 0 n n (copy_at n c m) ∙ (rw (first, one, third)) in
      rw (same_b, same_c) (read-append 0 (n + n) n (copy_at n c m) ∙ (rw (both, start, rest)))

  -- A third message is copied to where the log ends if it held the second alone: with three messages
  -- of one length, which fill the log in part, the second is lost, and the console gets the first,
  -- the third, and as many characters that no message set.
  pub init_printk_done-third :
      (c : List ℕ)
      → length b ≡ length a
      → length c ≡ length a
      → length a + length b + length c ≤ log_buf_len
      → Returns
          (printk a s
            >>= (λ (r : ℕ × Printk). printk b r.1)
            >>= (λ (r : ℕ × Printk). printk c r.1)
            >>= (λ (r : ℕ × Printk). init_printk_done r.1))
          (λ t.
            t.console ≡ s.console ++ ((a ++ c) ++ read (length a + length a) (length a) s.log_buf))
  unfolding logged
  init_printk_done-third c same_b same_c small =
      let three = logged c two in
      let last : printk c two ≡ ok (0, three) = printk-logged c two empty.down (omega arith) in
      (
        record three {
          ready = true;
          g_record = 0;
          g_record_len = 0;
          console = s.console ++ read 0 (length a + length b + length c) three.log_buf;
        },
        rw (two-logged (omega arith), last) (init_printk_done_lem three (omega arith)),
        ap (λ (r : List ℕ). s.console ++ r) (read-three c same_b same_c),
      )
