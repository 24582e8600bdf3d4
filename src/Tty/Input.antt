-- ===== src/Tty/Input.antt =====
-- The buffer of typed characters in kernel/tty.c as a queue, also once it has wrapped round.
use kernel_study.Base.{
  Bool-cases, inl, inr, length-append, ℕ, zero, suc, ◌+◌, ◌-◌, ◌<◌, ◌≤◌, ◌≡◌, ◌≢◌, refl, Bool,
  false, ◌||◌, List, [], ◌∷◌, ◌++◌, arith, ◌==◌, leb, update, take, drop, length, ap, ◌∙◌, sym, ◌⊎◌,
  true, if◌then◌else◌, dec_lt,
}
use kernel_study.Tty.{
  Stdin, stdin_buffer_size, newline, store_char, has_line_from, stdin_buffer_has_line, tty_read,
}

-- The `n` characters from index `i` on.
abbrev pub slice : (ℕ → ℕ) → ℕ → ℕ → List ℕ
slice f i zero = []
slice f i (suc n) = f i ∷ slice f (i + 1) n

-- The characters that wait to be read, oldest first: with `buffer_head` behind the last index, they start at the front
-- again, unless `buffer_tail` is there too.
abbrev pub pending : Stdin → List ℕ
pending b =
    if b.head == b.tail
    then []
    else if b.head == stdin_buffer_size
    then slice b.buffer 0 b.tail
    else slice b.buffer b.head (b.tail - b.head)

-- The two shapes that the buffer has: `buffer_head` is not behind `buffer_tail`, or it is behind the last index while the
-- tail has gone to the front.
pub record IsBuffer (b : Stdin) : Type 0 where
  pub order : (b.head ≤ b.tail) ⊎ ((b.head ≡ stdin_buffer_size) × (1 ≤ b.tail))
  pub within : b.tail ≤ stdin_buffer_size

-- A character can be stored without losing one: there is room behind the tail, or everything has been read, and the
-- tail does not come up with a head that is behind the last index.
abbrev pub HasRoom : Stdin → Type 0
HasRoom b =
    ((b.head ≢ stdin_buffer_size) × (b.tail < stdin_buffer_size))
    ⊎ ((b.head ≡ stdin_buffer_size) × (b.tail ≢ 4095))

abbrev pub contains : ℕ → List ℕ → Bool
contains c [] = false
contains c (x ∷ xs) = (x == c) || contains c xs

take_all : (xs : List ℕ) → take (length xs) xs ≡ xs
take_all [] = refl
take_all (x ∷ xs) = ap (λ (ys : List ℕ). x ∷ ys) (take_all xs)

slice-update :
    (f : ℕ → ℕ) (i n j c : ℕ) → j ≡ i + n → slice (update f j c) i (suc n) ≡ slice f i n ++ (c ∷ [])
unfolding update
slice-update f i zero j c e = ground arith
slice-update f i (suc n) j c e =
    let first : update f j c i ≡ f i = ground arith in
    rw first (ap (λ (xs : List ℕ). f i ∷ xs) (slice-update f (i + 1) n j c (omega arith)))

has_line_from-contains :
    (f : ℕ → ℕ) (i n : ℕ) → has_line_from f i n ≡ contains newline (slice f i n)
unfolding has_line_from
has_line_from-contains f i zero = refl
has_line_from-contains f i (suc n) = ground (arith, has_line_from-contains f (i + 1) n)

-- `stdin_buffer_has_line` says whether a newline is between `buffer_head` and `buffer_tail`.
pub stdin_buffer_has_line-contains :
    (b : Stdin)
    → stdin_buffer_has_line b ≡ contains newline (slice b.buffer b.head (b.tail - b.head))
unfolding stdin_buffer_has_line
stdin_buffer_has_line-contains b = has_line_from-contains b.buffer b.head (b.tail - b.head)

-- Where the pending characters are, in each case.
front_char : (f : ℕ → ℕ) (c : ℕ) → slice (update f 0 c) 0 1 ≡ c ∷ []
unfolding update
front_char f c = refl

pending_none : (b : Stdin) → b.head ≡ b.tail → pending b ≡ []
pending_none b e = let h : (b.head == b.tail) ≡ true = ground (arith, e) in rw h refl

pending_linear :
    (b : Stdin)
    → b.head ≤ b.tail
    → b.tail ≤ stdin_buffer_size
    → pending b ≡ slice b.buffer b.head (b.tail - b.head)
pending_linear b le within = elim (Bool-cases (b.head == b.tail)) [
  | inl e ↦ let none_left : b.tail - b.head ≡ 0 = ground (arith, e) in rw (e, none_left) refl
  | inr ne ↦
      let low : (b.head == stdin_buffer_size) ≡ false = ground (arith, ne, le, within) in
      rw (ne, low) refl
]

pending_wrapped :
    (b : Stdin)
    → b.head ≡ stdin_buffer_size
    → b.tail < stdin_buffer_size
    → pending b ≡ slice b.buffer 0 b.tail
pending_wrapped b e lt =
    let ne : (b.head == b.tail) ≡ false = ground (arith, e, lt) in
    let high : (b.head == stdin_buffer_size) ≡ true = ground (arith, e) in rw (ne, high) refl

-- The state after a character goes behind the tail, and after one goes to the front.
abbrev behind : ℕ → Stdin → Stdin
behind c b = record b { buffer = update b.buffer b.tail c; tail = b.tail + 1 }

abbrev in_front : ℕ → Stdin → Stdin
in_front c b = record b { buffer = update b.buffer 0 c; tail = 1 }

store_char-behind :
    (c : ℕ) (b : Stdin)
    → b.tail < stdin_buffer_size
    → (b.head ≢ stdin_buffer_size) ⊎ (b.tail ≢ 4095)
    → store_char c b ≡ behind c b
unfolding store_char
store_char-behind c b room apart = ground (arith, room, apart)

store_char-in_front :
    (c : ℕ) (b : Stdin)
    → b.head ≡ stdin_buffer_size
    → b.tail ≡ stdin_buffer_size
    → store_char c b ≡ in_front c b
unfolding store_char
store_char-in_front c b h t = ground (arith, h, t)

snoc_linear :
    (c : ℕ) (b : Stdin)
    → b.head ≤ b.tail
    → b.head ≢ stdin_buffer_size
    → b.tail < stdin_buffer_size
    → IsBuffer (store_char c b) × (pending (store_char c b) ≡ pending b ++ (c ∷ []))
snoc_linear c b le ne room =
    let more : b.tail + 1 - b.head ≡ suc (b.tail - b.head) = omega (arith, le) in
    rw (store_char-behind c b room (inl ne)) (
      record { order = inl (omega (arith, le)); within = omega (arith, room) },
      pending_linear (behind c b) (omega (arith, le)) (omega (arith, room))
          ∙ rw (more, pending_linear b le (omega (arith, room)))
              (slice-update b.buffer b.head (b.tail - b.head) b.tail c (omega (arith, le))),
    )

snoc_wrapped :
    (c : ℕ) (b : Stdin)
    → b.head ≡ stdin_buffer_size
    → b.tail < stdin_buffer_size
    → b.tail ≢ 4095
    → IsBuffer (store_char c b) × (pending (store_char c b) ≡ pending b ++ (c ∷ []))
snoc_wrapped c b h room ne =
    let more : b.tail + 1 ≡ suc b.tail = omega arith in
    rw (store_char-behind c b room (inr ne)) (
      record { order = inr (h, omega arith); within = omega (arith, room) },
      pending_wrapped (behind c b) h (omega (arith, room, ne))
          ∙ rw (more, pending_wrapped b h room)
              (slice-update b.buffer 0 b.tail b.tail c (omega arith)),
    )

-- A stored character for which there is room comes last among the pending ones.
pub store_char-snoc :
    (c : ℕ) (b : Stdin)
    → IsBuffer b
    → HasRoom b
    → IsBuffer (store_char c b) × (pending (store_char c b) ≡ pending b ++ (c ∷ []))
store_char-snoc c b v room = elim room [
  | inl r ↦ elim v.order [ inl le ↦ snoc_linear c b le r.0 r.1 | inr w ↦ absurd (r.0 w.0) ]
  | inr r ↦ elim (dec_lt b.tail stdin_buffer_size) [
    | yes lt ↦ snoc_wrapped c b r.0 lt r.1
    | no ge ↦
        let t : b.tail ≡ stdin_buffer_size = omega (arith, ge, v.within) in
        rw (store_char-in_front c b r.0 t, pending_none b (r.0 ∙ sym t))
          (
            record { order = inr (r.0, omega arith); within = omega arith },
            pending_wrapped (in_front c b) r.0 (omega arith) ∙ front_char b.buffer c,
          )
  ]
]

-- With no room and characters still to be read, a typed character is lost.
pub store_char_full :
    (c : ℕ) (b : Stdin) → b.tail ≡ stdin_buffer_size → b.head ≢ b.tail → store_char c b ≡ b
unfolding store_char
store_char_full c b full unread = ground arith

-- The characters from the front of a part of the buffer.
read_linear :
    (len : ℕ) (b : Stdin)
    → b.head ≤ b.tail
    → b.tail ≤ stdin_buffer_size
    → let (out, b') = tty_read len b in
      let held = slice b.buffer b.head (b.tail - b.head) in
      (out ≡ take len held)
      × (slice b'.buffer b'.head (b'.tail - b'.head) ≡ drop len held)
      × (b'.head ≤ b'.tail)
      × (b'.tail ≤ stdin_buffer_size)
unfolding tty_read
read_linear zero b le within = (refl, refl, le, within)
read_linear (suc len) b le within = elim (Bool-cases (b.head == b.tail)) [
  | inl empty ↦
      let none_left : b.tail - b.head ≡ 0 = ground (arith, empty) in
      rw (empty, none_left) (refl, refl, le, within)
  | inr unread ↦
      let some_left : b.tail - b.head ≡ suc (b.tail - (b.head + 1)) = ground (arith, le, unread) in
      let inside : leb stdin_buffer_size b.head ≡ false = ground (arith, le, within, unread) in
      let rest =
        read_linear len (record b { head = b.head + 1 }) (ground (arith, le, unread)) within in
      rw (unread, inside, some_left)
        (ap (λ (xs : List ℕ). b.buffer b.head ∷ xs) rest.0, rest.1, rest.2, rest.3)
]

read_wrapped :
    (len : ℕ) (b : Stdin)
    → b.head ≡ stdin_buffer_size
    → 1 ≤ b.tail
    → b.tail < stdin_buffer_size
    → let (out, b') = tty_read (suc len) b in
      (out ≡ take (suc len) (slice b.buffer 0 b.tail))
      × (slice b'.buffer b'.head (b'.tail - b'.head) ≡ drop (suc len) (slice b.buffer 0 b.tail))
      × (b'.head ≤ b'.tail)
      × (b'.tail ≤ stdin_buffer_size)
unfolding tty_read
read_wrapped len b h some_left lt =
    let unread : (b.head == b.tail) ≡ false = ground (arith, h, lt) in
    let behind_last : leb stdin_buffer_size b.head ≡ true = ground (arith, h) in
    let split : b.tail ≡ suc (b.tail - (0 + 1)) = omega (arith, some_left) in
    let rest = read_linear len (record b { head = 0 + 1 }) some_left (omega (arith, lt)) in
    rw (unread, behind_last)
      (
        ap (λ (xs : List ℕ). b.buffer 0 ∷ xs) rest.0
            ∙ ap (λ (n : ℕ). take (suc len) (slice b.buffer 0 n)) (sym split),
        rest.1 ∙ ap (λ (n : ℕ). drop (suc len) (slice b.buffer 0 n)) (sym split),
        rest.2,
        rest.3,
      )

read_empty : (len : ℕ) (b : Stdin) → (b.head == b.tail) ≡ true → tty_read len b ≡ ([], b)
unfolding tty_read
read_empty zero b e = refl
read_empty (suc len) b e = rw e refl

take_none : (n : ℕ) → take {A = ℕ} n [] ≡ []
take_none zero = refl
take_none (suc n) = refl

drop_none : (n : ℕ) → drop {A = ℕ} n [] ≡ []
drop_none zero = refl
drop_none (suc n) = refl

-- What a read leaves, as pending characters.
took_linear :
    (len : ℕ) (b : Stdin) {held : List ℕ}
    → ((tty_read len b).0 ≡ take len held)
      × (slice
            (tty_read len b).1.buffer
            (tty_read len b).1.head
            ((tty_read len b).1.tail - (tty_read len b).1.head)
          ≡ drop len held)
      × ((tty_read len b).1.head ≤ (tty_read len b).1.tail)
      × ((tty_read len b).1.tail ≤ stdin_buffer_size)
    → pending b ≡ held
    → ((tty_read len b).0 ≡ take len (pending b))
      × (pending (tty_read len b).1 ≡ drop len (pending b))
      × IsBuffer (tty_read len b).1
took_linear len b r e = (
  r.0 ∙ ap (take len) (sym e),
  pending_linear (tty_read len b).1 r.2 r.3 ∙ r.1 ∙ ap (drop len) (sym e),
  record { order = inl r.2; within = r.3 },
)

took_wrapped :
    (len : ℕ) (b : Stdin)
    → IsBuffer b
    → (b.head == b.tail) ≡ false
    → b.head ≡ stdin_buffer_size
    → 1 ≤ b.tail
    → ((tty_read len b).0 ≡ take len (pending b))
      × (pending (tty_read len b).1 ≡ drop len (pending b))
      × IsBuffer (tty_read len b).1
unfolding tty_read
took_wrapped zero b v ne h some_left = (refl, refl, v)
took_wrapped (suc len) b v ne h some_left =
    let lt : b.tail < stdin_buffer_size = ground (arith, ne, h, v.within) in
    took_linear (suc len) b (read_wrapped len b h some_left lt) (pending_wrapped b h lt)

-- For a buffer of one of the two shapes, `buffer_head` not behind `buffer_tail` or at 4096 with the tail from 1 on, and
-- the tail up to 4096: `tty_read` takes the oldest pending characters, as many as are asked for and are
-- there, from the front of the buffer once `buffer_head` is behind its last index, and leaves the others pending in a
-- buffer of one of these shapes.
pub tty_read-take :
    (len : ℕ) (b : Stdin)
    → IsBuffer b
    → let (out, b') = tty_read len b in
      (out ≡ take len (pending b)) × (pending b' ≡ drop len (pending b)) × IsBuffer b'
tty_read-take len b v = elim (Bool-cases (b.head == b.tail)) [
  | inl e ↦
      let nothing : pending b ≡ [] = pending_none b (ground (arith, e)) in
      rw (read_empty len b e, nothing) (sym (take_none len), sym (drop_none len), v)
  | inr ne ↦ elim v.order [
    | inl le ↦ took_linear len b (read_linear len b le v.within) (pending_linear b le v.within)
    | inr w ↦ took_wrapped len b v ne w.0 w.1
  ]
]

-- A reader sees the typed characters in order. For a buffer of one of the two shapes, `buffer_head` not behind
-- `buffer_tail` or at 4096 with the tail from 1 on, and with room for a character, the head not at 4096 and the tail
-- below it or the head at 4096 and the tail not at 4095: the character that is stored is read behind all that was
-- pending, so that none is lost.
pub tty_read-store_char :
    (c : ℕ) (b : Stdin)
    → IsBuffer b
    → HasRoom b
    → (tty_read (length (pending b) + 1) (store_char c b)).0 ≡ pending b ++ (c ∷ [])
tty_read-store_char c b v room =
    let stored = store_char-snoc c b v room in
    let all = tty_read-take (length (pending b) + 1) (store_char c b) stored.0 in
    all.0
    ∙ rw stored.1 (
        let n : length (pending b) + 1 ≡ length (pending b ++ (c ∷ [])) =
          omega (arith, length-append (pending b) (c ∷ [])) in
        rw n (take_all (pending b ++ (c ∷ []))))

no_line : (b : Stdin) → b.tail ≤ b.head → stdin_buffer_has_line b ≡ false
unfolding stdin_buffer_has_line has_line_from
no_line b h = let e : b.tail - b.head ≡ 0 = omega arith in rw e refl

-- Once the buffer has been filled and read to its end, the next character goes to its front and is the one pending
-- character, while `buffer_head` stays behind the last index: `stdin_buffer_has_line` sees nothing then, also if the
-- character is a newline.
pub has_line_after_wrap :
    (c : ℕ) (b : Stdin)
    → b.head ≡ stdin_buffer_size
    → b.tail ≡ stdin_buffer_size
    → (pending (store_char c b) ≡ c ∷ []) × (stdin_buffer_has_line (store_char c b) ≡ false)
has_line_after_wrap c b h t = rw (store_char-in_front c b h t) (
  pending_wrapped (in_front c b) h (omega arith) ∙ front_char b.buffer c,
  no_line (in_front c b) (omega (arith, h)),
)

length-slice : (f : ℕ → ℕ) (i n : ℕ) → length (slice f i n) ≡ n
length-slice f i zero = refl
length-slice f i (suc n) = ap suc (length-slice f (i + 1) n)

-- The character that takes the tail behind the last index while the head is there too discards all the others.
pub store_char_discards :
    (c : ℕ) (b : Stdin)
    → b.head ≡ stdin_buffer_size
    → b.tail ≡ 4095
    → (length (pending b) ≡ 4095) × (pending (store_char c b) ≡ c ∷ [])
unfolding store_char
store_char_discards c b h t =
    let gone : store_char c b ≡ in_front c (behind c b) = ground (arith, h, t) in
    (
      ap length (pending_wrapped b h (omega (arith, t))) ∙ length-slice b.buffer 0 b.tail ∙ t,
      rw gone (
          pending_wrapped (in_front c (behind c b)) h (omega arith)
          ∙ front_char (behind c b).buffer c),
    )
