-- ===== src/Pipe/Buffer.antt =====
-- `struct pipe` (pipe.c), the step of the loop of `pipewrite` that stores a byte and that of
-- `piperead` that takes one, and the buffer as a list of bytes.
use assignment.Prelude.{
  ℕ, zero, suc, ◌+◌, ◌%◌, ◌^◌, ◌≤◌, ◌<◌, ◌≡◌, ◌≢◌, refl, ◌∙◌, ap, ap₂, Bool, List, [], ◌∷◌, ◌++◌,
  none, some, arith, ◌==◌, get_elem?, get_elem?_of_lt, get_elem?-modify_ne, get_elem?-modify_self,
  length, length-modify, modify,
}

abbrev pub pipe_size : ℕ
pipe_size = 512

-- The two counters are `uint`s: they count modulo 2 ^ 32.
pub record Pipe : Type 0 where
  pub buf : List ℕ
  pub nread : ℕ
  pub nwrite : ℕ
  pub readopen : Bool
  pub writeopen : Bool

abbrev pub is_empty : Pipe → Bool
is_empty p = p.nread == p.nwrite

abbrev pub is_full : Pipe → Bool
is_full p = p.nwrite == (p.nread + pipe_size) % 2 ^ 32

-- `p->data[p->nwrite++ % PIPESIZE] = c`
unfoldable pub put_byte : ℕ → Pipe → Pipe
put_byte c p = record p {
  buf = modify p.buf (p.nwrite % pipe_size) (λ _. c);
  nwrite = (p.nwrite + 1) % 2 ^ 32;
}

-- A byte of the array, which has PIPESIZE of them.
abbrev pub byte_at : List ℕ → ℕ → ℕ
byte_at buf i = elim (get_elem? buf i) [ none ↦ 0 | some c ↦ c ]

-- `p->data[p->nread++ % PIPESIZE]`
unfoldable pub get_byte : Pipe → ℕ × Pipe
get_byte p = (byte_at p.buf (p.nread % pipe_size), record p { nread = (p.nread + 1) % 2 ^ 32 })

-- A pipe that holds `n` bytes.
pub record IsPipe (p : Pipe) (n : ℕ) : Type 0 where
  pub room : length p.buf ≡ pipe_size
  pub read : p.nread < 2 ^ 32
  pub written : p.nwrite ≡ (p.nread + n) % 2 ^ 32
  pub few : n ≤ pipe_size

-- The `n` bytes of the array from the index `h` on, round it.
abbrev pub window : List ℕ → ℕ → ℕ → List ℕ
window buf h zero = []
window buf h (suc n) = byte_at buf h ∷ window buf ((h + 1) % pipe_size) n

-- The bytes of a pipe that holds `n`, the one written first at the front.
abbrev pub contents : Pipe → ℕ → List ℕ
contents p n = window p.buf (p.nread % pipe_size) n

window_off :
    (buf : List ℕ) (h n i : ℕ) (f : ℕ → ℕ)
    → h < pipe_size
    → ((k : ℕ) → k < n → (h + k) % pipe_size ≢ i)
    → window (modify buf i f) h n ≡ window buf h n
window_off buf h zero i f lt off = refl
window_off buf h (suc n) i f lt off =
    let here : get_elem? (modify buf i f) h ≡ get_elem? buf h =
      get_elem?-modify_ne buf i h f (λ e. off 0 (omega arith) (omega arith)) in
    let rest =
      window_off buf ((h + 1) % pipe_size) n i f (omega arith)
        (λ k lk e. off (k + 1) (omega arith) (omega arith)) in
    ap₂ ◌∷◌ (rw (here, byte_at) refl) rest

window_snoc :
    (buf : List ℕ) (h n : ℕ)
    → h < pipe_size
    → window buf h (suc n) ≡ window buf h n ++ (byte_at buf ((h + n) % pipe_size) ∷ [])
window_snoc buf h zero lt = let e : (h + 0) % pipe_size ≡ h = omega arith in rw e refl
window_snoc buf h (suc n) lt =
    let e : ((h + 1) % pipe_size + n) % pipe_size ≡ (h + suc n) % pipe_size = omega arith in
    let rest = window_snoc buf ((h + 1) % pipe_size) n (omega arith) in
    ap (λ l. byte_at buf h ∷ l)
      (rest ∙ ap (λ i. window buf ((h + 1) % pipe_size) n ++ (byte_at buf i ∷ [])) e)

-- A byte stored with room left stands behind the others.
pub put_byte_back :
    (c n : ℕ) (p : Pipe)
    → IsPipe p n
    → n < pipe_size
    → IsPipe (put_byte c p) (n + 1) × (contents (put_byte c p) (n + 1) ≡ contents p n ++ (c ∷ []))
unfolding put_byte
put_byte_back c n p v lt = (
  record {
    room = length-modify p.buf _ _ ∙ v.room;
    read = v.read;
    written = omega (arith, v.written, v.read);
    few = omega arith;
  },
  let e : n + 1 ≡ suc n = omega arith in
      let at : (p.nread % pipe_size + n) % pipe_size ≡ p.nwrite % pipe_size =
        omega (arith, v.written, v.read) in
      let slot = get_elem?_of_lt p.buf (p.nwrite % pipe_size) (omega (arith, v.room)) in
      rw e (
        window_snoc (put_byte c p).buf (p.nread % pipe_size) n (omega arith)
        ∙ ap₂ ◌++◌
            (window_off p.buf (p.nread % pipe_size) n (p.nwrite % pipe_size) _ (omega arith)
              (λ k lk. omega (arith, v.written, v.read)))
            (rw at (
              rw (get_elem?-modify_self p.buf (p.nwrite % pipe_size) (λ _. c) slot.1, byte_at)
                refl))),
)

-- The byte taken from a pipe that holds some is the one written first.
pub get_byte_front :
    (n : ℕ) (p : Pipe)
    → IsPipe p (suc n)
    → IsPipe (get_byte p).1 n × (contents p (suc n) ≡ (get_byte p).0 ∷ contents (get_byte p).1 n)
unfolding get_byte
get_byte_front n p v = (
  record {
    room = v.room;
    read = omega arith;
    written = omega (arith, v.written, v.read);
    few = omega (arith, v.few);
  },
  ap (λ h. byte_at p.buf (p.nread % pipe_size) ∷ window p.buf h n)
      (let e : (p.nread % pipe_size + 1) % pipe_size ≡ (p.nread + 1) % 2 ^ 32 % pipe_size =
          omega arith in
        e),
)

pub is_empty_iff : (n : ℕ) (p : Pipe) → IsPipe p n → is_empty p ≡ (n == 0)
is_empty_iff n p v = ground (arith, v.written, v.read, v.few)

pub is_full_iff : (n : ℕ) (p : Pipe) → IsPipe p n → is_full p ≡ (n == 512)
is_full_iff n p v = ground (arith, v.written, v.read, v.few)
