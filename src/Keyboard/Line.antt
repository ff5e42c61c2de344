-- ===== src/Keyboard/Line.antt =====
-- A line that is typed is what the thread that waits for it reads.
use lt_kernel.Prelude.{
  ℕ, zero, suc, ◌+◌, ◌-◌, ◌*◌, ◌%◌, ◌<◌, ◌≤◌, ◌≡◌, ◌≢◌, refl, sym, ap, ◌∙◌, Bool, true, false, ◌||◌,
  none, some, List, [], ◌∷◌, ◌++◌, ◌==◌, arith, if◌then◌else◌, ltb, length, get_elem?, set, take,
  length-set, append_assoc, length-append,
}
use lt_kernel.Prelude.Result.{Result, ok}
use lt_kernel.Status.{status_success}
use lt_kernel.Keyboard.{
  kbdmap, ThreadConsole, Console, set_console, cnsl_handle_key, shift_of, drv_keyboard, wait_line,
  Scanned, flush_line, scan_line, sys_scanf,
}

-- The key of a scan code, which is not a shift key, makes a character.
pub record Makes (sh code key : ℕ) : Type 0 where
  pub low : 0 < code
  pub high : code ≤ 128
  pub not_lshift : code ≢ 42
  pub not_rshift : code ≢ 54
  pub mapped : get_elem? kbdmap ((code - 1) * 4 + sh) ≡ some key

-- 1 while a shift key is held
abbrev pub shift : Bool → Bool → ℕ
shift left right = if left || right then 1 else 0

-- The codes make the characters of a text without an end of line. The two shift keys are held or not at
-- the start, and at the end. A key gives a code when it is pressed, and the code that is 128 more when
-- it is released.
pub data Typed : Bool → Bool → List ℕ → List ℕ → Bool → Bool → Type 0 where
  typed_nothing : (l r : Bool) → Typed l r [] [] l r
  key_down :
      (l r l' r' : Bool) (code key : ℕ) (codes keys : List ℕ)
      → Makes (shift l r) code key
      → key ≢ 10
      → Typed l r codes keys l' r'
      → Typed l r (code ∷ codes) (key ∷ keys) l' r'
  key_up :
      (l r l' r' : Bool) (code : ℕ) (codes keys : List ℕ)
      → 128 < code
      → code < 256
      → code ≢ 42 + 128
      → code ≢ 54 + 128
      → Typed l r codes keys l' r'
      → Typed l r (code ∷ codes) keys l' r'
  left_shift_down :
      (l r l' r' : Bool) (code : ℕ) (codes keys : List ℕ)
      → code ≡ 42
      → Typed true r codes keys l' r'
      → Typed l r (code ∷ codes) keys l' r'
  left_shift_up :
      (l r l' r' : Bool) (code : ℕ) (codes keys : List ℕ)
      → code ≡ 42 + 128
      → Typed false r codes keys l' r'
      → Typed l r (code ∷ codes) keys l' r'
  right_shift_down :
      (l r l' r' : Bool) (code : ℕ) (codes keys : List ℕ)
      → code ≡ 54
      → Typed l true codes keys l' r'
      → Typed l r (code ∷ codes) keys l' r'
  right_shift_up :
      (l r l' r' : Bool) (code : ℕ) (codes keys : List ℕ)
      → code ≡ 54 + 128
      → Typed l false codes keys l' r'
      → Typed l r (code ∷ codes) keys l' r'

-- The thread `t` owns the console, has the text `line` in its buffer and waits, with the shift keys `l`
-- and `r`.
record Holds (t : ℕ) (l r : Bool) (line : List ℕ) (ready : Bool) (s : Console) : Type 0 where
  owner : s.owner_thread ≡ some t
  left : s.lshift_enable ≡ l
  right : s.rshift_enable ≡ r
  size : length (s.consoles t).console_buffer ≡ 512
  index : (s.consoles t).buffer_index ≡ length line
  text : take (length line) (s.consoles t).console_buffer ≡ line
  is_ready : (s.consoles t).ready_to_be_flushed ≡ ready

take-set :
    (xs : List ℕ) (i v : ℕ) → i < length xs → take (suc i) (set xs i v) ≡ take i xs ++ (v ∷ [])
take-set [] i v h = absurd (omega arith)
take-set (x ∷ xs) zero v h = refl
take-set (x ∷ xs) (suc i) v h = ap (λ r. x ∷ r) (take-set xs i v (omega arith))

-- A key that is pressed extends the text of the thread.
key_pressed :
    (t : ℕ) (l r : Bool) (code key : ℕ) (line : List ℕ) (s : Console)
    → Makes (shift l r) code key
    → Holds t l r line false s
    → length line < 512
    → (s' : Console) × (drv_keyboard code s ≡ ok s')
      × Holds t l r (line ++ (key ∷ [])) (key == 10) s'
unfolding drv_keyboard cnsl_handle_key
key_pressed t l r code key line s m v h =
    let sh : shift_of s ≡ shift l r = rw (v.left, v.right) refl in
    let c = s.consoles t in
    let i : (code + 255) % 256 ≡ code - 1 = omega (arith, m.low, m.high) in
    let low : ltb (code - 1) 128 ≡ true = ground (arith, m.low, m.high) in
    let nl : ((code - 1) == 41) ≡ false = ground (arith, m.low, m.not_lshift) in
    let nr : ((code - 1) == 53) ≡ false = ground (arith, m.low, m.not_rshift) in
    let room : ltb c.buffer_index 512 ≡ true = ground (arith, v.index) in
    let own : (t == t) ≡ true = ground arith in
    let one = length-append line (key ∷ []) in
    let more : length (line ++ (key ∷ [])) ≡ suc (length line) = omega (arith, one) in
    let d : ThreadConsole = record {
      console_buffer = set c.console_buffer c.buffer_index key;
      buffer_index = c.buffer_index + 1;
      ready_to_be_flushed = (key == 10) || c.ready_to_be_flushed;
    } in
    let s' = set_console t d (record s { printed = s.printed ++ (key ∷ []) }) in
    let e : s'.consoles t ≡ d = rw own refl in
    (
      s',
      rw (i, low, nl, nr, sh, m.mapped, v.owner, room) refl,
      record {
        owner = v.owner;
        left = v.left;
        right = v.right;
        size =
            ap (λ x. length x.console_buffer) e
            ∙ length-set c.console_buffer c.buffer_index key
            ∙ v.size;
        index = ap (λ x. x.buffer_index) e ∙ omega (arith, v.index, more);
        text =
            ap (λ x. take (length (line ++ (key ∷ []))) x.console_buffer) e
            ∙ rw (more, v.index)
                (take-set c.console_buffer (length line) key (omega (arith, v.size)))
            ∙ ap (λ x. x ++ (key ∷ [])) v.text;
        is_ready = ap (λ x. x.ready_to_be_flushed) e ∙ ground (arith, v.is_ready);
      },
    )

-- A key that is released, and the shift keys, change what is held and nothing else.
module _ (t : ℕ) (l r : Bool) (code : ℕ) (line : List ℕ) (s : Console)
    (v : Holds t l r line false s) where
  key_released :
      128 < code → code < 256 → code ≢ 42 + 128 → code ≢ 54 + 128 → drv_keyboard code s ≡ ok s
  unfolding drv_keyboard
  key_released low high nl nr =
      let i : (code + 255) % 256 ≡ code - 1 = omega arith in
      let out : ltb (code - 1) 128 ≡ false = ground arith in
      let left : ((code - 1) == 169) ≡ false = ground arith in
      let right : ((code - 1) == 181) ≡ false = ground arith in rw (i, out, left, right) refl

  left_held : (b : Bool) → Holds t b r line false (record s { lshift_enable = b })
  left_held b = record {
    owner = v.owner;
    left = refl;
    right = v.right;
    size = v.size;
    index = v.index;
    text = v.text;
    is_ready = v.is_ready;
  }

  right_held : (b : Bool) → Holds t l b line false (record s { rshift_enable = b })
  right_held b = record {
    owner = v.owner;
    left = v.left;
    right = refl;
    size = v.size;
    index = v.index;
    text = v.text;
    is_ready = v.is_ready;
  }

shift_codes :
    (s : Console)
    → (drv_keyboard 42 s ≡ ok (record s { lshift_enable = true }))
      × (drv_keyboard 170 s ≡ ok (record s { lshift_enable = false }))
      × (drv_keyboard 54 s ≡ ok (record s { rshift_enable = true }))
      × (drv_keyboard 182 s ≡ ok (record s { rshift_enable = false }))
unfolding drv_keyboard
shift_codes s = (refl, refl, refl, refl)

stopped :
    (t : ℕ) (codes : List ℕ) (s : Console)
    → (s.consoles t).ready_to_be_flushed ≡ true
    → wait_line t codes s ≡ ok (s, codes)
unfolding wait_line
stopped t [] s h = rw h refl
stopped t (c ∷ codes) s h = rw (h, wait_line) refl

-- One round of the wait.
wait_step :
    (t code : ℕ) (codes : List ℕ) (s s' : Console)
    → (s.consoles t).ready_to_be_flushed ≡ false
    → drv_keyboard code s ≡ ok s'
    → wait_line t (code ∷ codes) s ≡ wait_line t codes s'
unfolding wait_line
wait_step t code codes s s' w e = rw (w, wait_line, e) refl

-- What the wait for a line of the thread `t` gives.
abbrev Waited : ℕ → Bool → Bool → List ℕ → List ℕ → List ℕ → Console → Type 0
Waited t l r codes line rest s =
    (s' : Console) × (wait_line t codes s ≡ ok (s', rest)) × Holds t l r line true s'

-- The wait ends behind the end of line, and the rest of the codes is left.
waited :
    (t : ℕ) (l r l' r' : Bool) (enter : ℕ) (cs ks line rest : List ℕ) (s : Console)
    → Typed l r cs ks l' r'
    → Makes (shift l' r') enter 10
    → length line + length ks < 512
    → Holds t l r line false s
    → Waited t l' r' (cs ++ (enter ∷ rest)) (line ++ (ks ++ (10 ∷ []))) rest s
waited t l r _ _ enter _ _ line rest s (typed_nothing _ _) e small v =
    let p = key_pressed t l r enter 10 line s e v (omega arith) in
    (p.0, wait_step t enter rest s p.0 v.is_ready p.1 ∙ stopped t rest p.0 p.2.is_ready, p.2)
waited t l r l' r' enter _ _ line rest s (key_down _ _ _ _ c k cs ks m ne ty) e small v =
    let p = key_pressed t l r c k line s m v (omega arith) in
    let other : (k == 10) ≡ false = ground arith in
    let more = length-append line (k ∷ []) in
    let held : Holds t l r (line ++ (k ∷ [])) false p.0 = rw (sym other) p.2 in
    let w =
      waited t l r l' r' enter cs ks (line ++ (k ∷ [])) rest p.0 ty e (omega (arith, more)) held in
    (
      w.0,
      wait_step t c (cs ++ (enter ∷ rest)) s p.0 v.is_ready p.1 ∙ w.1,
      rw (sym (append_assoc line (k ∷ []) (ks ++ (10 ∷ [])))) w.2,
    )
waited t l r l' r' enter _ _ line rest s (key_up _ _ _ _ c cs ks low high nl nr ty) e small v =
    let up = key_released t l r c line s v low high nl nr in
    let w = waited t l r l' r' enter cs ks line rest s ty e small v in
    (w.0, wait_step t c (cs ++ (enter ∷ rest)) s s v.is_ready up ∙ w.1, w.2)
waited t l r l' r' enter _ _ line rest s (left_shift_down _ _ _ _ c cs ks is ty) e small v =
    let s1 : Console = record s { lshift_enable = true } in
    let d = ap (λ x. drv_keyboard x s) is ∙ (shift_codes s).0 in
    let w =
      waited t true r l' r' enter cs ks line rest s1 ty e small (left_held t l r c line s v true) in
    (w.0, wait_step t c (cs ++ (enter ∷ rest)) s s1 v.is_ready d ∙ w.1, w.2)
waited t l r l' r' enter _ _ line rest s (left_shift_up _ _ _ _ c cs ks is ty) e small v =
    let s1 : Console = record s { lshift_enable = false } in
    let d = ap (λ x. drv_keyboard x s) is ∙ (shift_codes s).1 in
    let w =
      waited t false r l' r' enter cs ks line rest s1 ty e small
        (left_held t l r c line s v false) in
    (w.0, wait_step t c (cs ++ (enter ∷ rest)) s s1 v.is_ready d ∙ w.1, w.2)
waited t l r l' r' enter _ _ line rest s (right_shift_down _ _ _ _ c cs ks is ty) e small v =
    let s1 : Console = record s { rshift_enable = true } in
    let d = ap (λ x. drv_keyboard x s) is ∙ (shift_codes s).2 in
    let w =
      waited t l true l' r' enter cs ks line rest s1 ty e small
        (right_held t l r c line s v true) in
    (w.0, wait_step t c (cs ++ (enter ∷ rest)) s s1 v.is_ready d ∙ w.1, w.2)
waited t l r l' r' enter _ _ line rest s (right_shift_up _ _ _ _ c cs ks is ty) e small v =
    let s1 : Console = record s { rshift_enable = false } in
    let d = ap (λ x. drv_keyboard x s) is ∙ (shift_codes s).3 in
    let w =
      waited t l false l' r' enter cs ks line rest s1 ty e small
        (right_held t l r c line s v false) in
    (w.0, wait_step t c (cs ++ (enter ∷ rest)) s s1 v.is_ready d ∙ w.1, w.2)

-- What the thread `t` reads, and the console behind it.
pub record Read (t : ℕ) (line rest : List ℕ) (left_shift right_shift : Bool) (r : Result Scanned)
    : Type 0 where
  pub out : Scanned
  pub runs : r ≡ ok out
  pub status : out.status ≡ status_success
  pub buffer : out.buffer ≡ line ++ (10 ∷ (0 ∷ []))
  pub left : out.codes ≡ rest
  pub shifts : (out.console.lshift_enable ≡ left_shift) × (out.console.rshift_enable ≡ right_shift)
  pub free : out.console.owner_thread ≡ none
  pub index : (out.console.consoles t).buffer_index ≡ 0
  pub waiting : (out.console.consoles t).ready_to_be_flushed ≡ false

-- For a buffer that is not NULL, a free console and a current thread whose buffer of 512 bytes is
-- empty: if the keys that are pressed and released while `SysScanf` waits, the shift keys among them,
-- make the characters of a text below 512 characters that has no end of line, and then the key `enter`
-- makes an end of line, `SysScanf` ends with this key. The caller gets the text, the end of line and a
-- byte 0, the codes that follow are left, the shift keys are as they were typed last, and the console is
-- free and the buffer of the thread empty again.
pub sys_scanf-Read :
    (address t enter : ℕ) (cs line rest : List ℕ) (l r : Bool) (s : Console)
    → address ≢ 0
    → s.owner_thread ≡ none
    → length (s.consoles t).console_buffer ≡ 512
    → (s.consoles t).buffer_index ≡ 0
    → (s.consoles t).ready_to_be_flushed ≡ false
    → Typed s.lshift_enable s.rshift_enable cs line l r
    → Makes (shift l r) enter 10
    → length line < 512
    → Read t line rest l r (sys_scanf address (some t) (cs ++ (enter ∷ rest)) s)
unfolding sys_scanf scan_line flush_line
sys_scanf-Read address t enter cs line rest l r s given free size empty waits ty e small =
    let s0 : Console = record s { owner_thread = some t } in
    let v : Holds t s.lshift_enable s.rshift_enable [] false s0 = record {
      owner = refl;
      left = refl;
      right = refl;
      size = size;
      index = empty;
      text = refl;
      is_ready = waits;
    } in
    let w =
      waited t s.lshift_enable s.rshift_enable l r enter cs line [] rest s0 ty e (omega arith) v in
    let c = w.0.consoles t in
    let own : (t == t) ≡ true = ground arith in
    let there : (address == 0) ≡ false = ground arith in
    let at = ap (λ n. take n c.console_buffer) w.2.index ∙ w.2.text in
    record {
      out = flush_line t w.0 rest;
      runs = rw (there, free, w.1) refl;
      status = refl;
      buffer = ap (λ l. l ++ (0 ∷ [])) at ∙ append_assoc line (10 ∷ []) (0 ∷ []);
      left = refl;
      shifts = (w.2.left, w.2.right);
      free = refl;
      index = rw own refl;
      waiting = rw own refl;
    }
