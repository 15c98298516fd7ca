-- ===== src/Fs/Dinode.antt =====
-- `struct dinode` (fs.h) in the bytes of its block, as `iupdate` writes it and `ilock` reads it.
use assignment.Prelude.{
  ℕ, zero, suc, ◌+◌, ◌*◌, ◌≤◌, ◌<◌, ◌≡◌, ◌⊎◌, inl, refl, ◌∙◌, ap, List, [], ◌∷◌, arith, length,
}
use assignment.Fs.Block.{Block, get16, get32, put16, put32, put16_off, get32-put32, put32_off}

-- The fields of an inode that are on the disk; a `short` is its 16 bits.
pub record Dinode : Type 0 where
  pub type : ℕ
  pub major : ℕ
  pub minor : ℕ
  pub nlink : ℕ
  pub size : ℕ
  pub addrs : List ℕ

abbrev pub dinode_size : ℕ
dinode_size = 64

-- NDIRECT + 1, the number of block addresses in an inode
abbrev pub naddrs : ℕ
naddrs = 13

-- `n` words from the offset `o` on, and words that are stored there.
unfoldable pub get_words : ℕ → ℕ → Block → List ℕ
get_words zero o b = []
get_words (suc n) o b = get32 b o ∷ get_words n (o + 4) b

unfoldable pub put_words : ℕ → List ℕ → Block → Block
put_words o [] b = b
put_words o (w ∷ ws) b = put_words (o + 4) ws (put32 o w b)

-- The reads of `ilock`, of the inode at the offset `o`.
unfoldable pub read_dinode : ℕ → Block → Dinode
read_dinode o b = record {
  type = get16 b o;
  major = get16 b (o + 2);
  minor = get16 b (o + 4);
  nlink = get16 b (o + 6);
  size = get32 b (o + 8);
  addrs = get_words naddrs (o + 12) b;
}

-- The four `short`s of an inode.
unfoldable pub put_head : ℕ → Dinode → Block → Block
put_head o x b =
    put16 (o + 6) x.nlink (put16 (o + 4) x.minor (put16 (o + 2) x.major (put16 o x.type b)))

-- The writes of `iupdate`.
unfoldable pub write_dinode : ℕ → Dinode → Block → Block
write_dinode o x b = put_words (o + 12) x.addrs (put32 (o + 8) x.size (put_head o x b))

-- Fields that fit their C types.
abbrev pub AreWords : List ℕ → Type 0
AreWords [] = Unit
AreWords (w ∷ ws) = (w < 4294967296) × AreWords ws

pub record IsDinode (x : Dinode) : Type 0 where
  pub type_fits : x.type < 65536
  pub major_fits : x.major < 65536
  pub minor_fits : x.minor < 65536
  pub nlink_fits : x.nlink < 65536
  pub size_fits : x.size < 4294967296
  pub addrs_fit : AreWords x.addrs
  pub addrs_room : length x.addrs ≡ naddrs

pub put_words_off :
    (o : ℕ) (ws : List ℕ) (b : Block) (a : ℕ)
    → (a < o) ⊎ (o + 4 * length ws ≤ a)
    → put_words o ws b a ≡ b a
unfolding put_words
put_words_off o [] b a off = refl
put_words_off o (w ∷ ws) b a off =
    put_words_off (o + 4) ws (put32 o w b) a (ground (arith, off))
    ∙ put32_off o w b a (ground (arith, off))

get32_ext :
    (b c : Block) (o : ℕ) → ((a : ℕ) → o ≤ a → a < o + 4 → b a ≡ c a) → get32 b o ≡ get32 c o
get32_ext b c o same = omega (
  arith,
  same o (omega arith) (omega arith),
  same (o + 1) (omega arith) (omega arith),
  same (o + 2) (omega arith) (omega arith),
  same (o + 3) (omega arith) (omega arith),
)

get16_ext : (b c : Block) (o : ℕ) → b o ≡ c o → b (o + 1) ≡ c (o + 1) → get16 b o ≡ get16 c o
get16_ext b c o e f = omega (arith, e, f)

get_words-put_words :
    (n o : ℕ) (ws : List ℕ) (b : Block)
    → length ws ≡ n
    → AreWords ws
    → get_words n o (put_words o ws b) ≡ ws
unfolding get_words put_words
get_words-put_words zero o [] b e fit = refl
get_words-put_words zero o (w ∷ ws) b e fit = absurd (omega (arith, e))
get_words-put_words (suc n) o [] b e fit = absurd (omega (arith, e))
get_words-put_words (suc n) o (w ∷ ws) b e (small, fit) =
    let head : get32 (put_words (o + 4) ws (put32 o w b)) o ≡ w =
      get32_ext (put_words (o + 4) ws (put32 o w b)) (put32 o w b) o
        (λ a le lt. put_words_off (o + 4) ws (put32 o w b) a (inl lt))
      ∙ get32-put32 o w b small in
    ap (λ h. h ∷ get_words n (o + 4) (put_words (o + 4) ws (put32 o w b))) head
    ∙ ap (λ l. w ∷ l) (get_words-put_words n (o + 4) ws (put32 o w b) (omega (arith, e)) fit)

-- A byte before the addresses and the size is that of the four `short`s.
write_dinode_head :
    (o : ℕ) (x : Dinode) (b : Block) (a : ℕ) → a < o + 8 → write_dinode o x b a ≡ put_head o x b a
unfolding write_dinode
write_dinode_head o x b a lt =
    put_words_off (o + 12) x.addrs _ a (inl (omega arith))
    ∙ put32_off (o + 8) x.size (put_head o x b) a (inl lt)

put_head_reads :
    (o : ℕ) (x : Dinode) (b : Block)
    → IsDinode x
    → (get16 (put_head o x b) o ≡ x.type)
      × (get16 (put_head o x b) (o + 2) ≡ x.major)
      × (get16 (put_head o x b) (o + 4) ≡ x.minor)
      × (get16 (put_head o x b) (o + 6) ≡ x.nlink)
unfolding put_head put16
put_head_reads o x b v =
    let tf = v.type_fits in
    let jf = v.major_fits in
    let nf = v.minor_fits in
    let lf = v.nlink_fits in (ground arith, ground arith, ground arith, ground arith)

-- The inode that `ilock` reads is the one that `iupdate` wrote, if its fields fit their types.
pub read-write_dinode :
    (o : ℕ) (x : Dinode) (b : Block) → IsDinode x → read_dinode o (write_dinode o x b) ≡ x
unfolding read_dinode write_dinode
read-write_dinode o x b v =
    let w : Block = write_dinode o x b in
    let h = put_head_reads o x b v in
    let head = λ (a : ℕ) (lt : a + 1 < o + 8).
      get16_ext w (put_head o x b) a (write_dinode_head o x b a (omega arith))
        (write_dinode_head o x b (a + 1) lt) in
    let type_read : get16 w o ≡ x.type = head o (omega arith) ∙ h.0 in
    let major_read : get16 w (o + 2) ≡ x.major = head (o + 2) (omega arith) ∙ h.1 in
    let minor_read : get16 w (o + 4) ≡ x.minor = head (o + 4) (omega arith) ∙ h.2 in
    let nlink_read : get16 w (o + 6) ≡ x.nlink = head (o + 6) (omega arith) ∙ h.3 in
    let sized = put32 (o + 8) x.size (put_head o x b) in
    let size_read : get32 w (o + 8) ≡ x.size =
      get32_ext w sized (o + 8)
        (λ a le lt. put_words_off (o + 12) x.addrs sized a (inl (omega arith)))
      ∙ get32-put32 (o + 8) x.size (put_head o x b) v.size_fits in
    let addrs_read : get_words naddrs (o + 12) w ≡ x.addrs =
      get_words-put_words naddrs (o + 12) x.addrs sized v.addrs_room v.addrs_fit in
    λ i. record {
      type = type_read i;
      major = major_read i;
      minor = minor_read i;
      nlink = nlink_read i;
      size = size_read i;
      addrs = addrs_read i;
    }

-- The other inodes of the block stay.
pub write_dinode_off :
    (o : ℕ) (x : Dinode) (b : Block) (a : ℕ)
    → length x.addrs ≡ naddrs
    → (a < o) ⊎ (o + dinode_size ≤ a)
    → write_dinode o x b a ≡ b a
unfolding write_dinode put_head
write_dinode_off o x b a room off =
    put_words_off (o + 12) x.addrs _ a (ground (arith, off, room))
    ∙ put32_off (o + 8) x.size (put_head o x b) a (ground (arith, off))
    ∙ put16_off (o + 6) x.nlink _ a (ground (arith, off))
    ∙ put16_off (o + 4) x.minor _ a (ground (arith, off))
    ∙ put16_off (o + 2) x.major _ a (ground (arith, off))
    ∙ put16_off o x.type b a (ground (arith, off))
