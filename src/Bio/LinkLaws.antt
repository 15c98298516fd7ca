-- ===== src/Bio/LinkLaws.antt =====
-- The ring of prev and next against the list of the buffers by recency.
use assignment.Prelude.{
  Avoids, IsDistinct, Avoids-append, Avoids-both, IsDistinct-middle, IsDistinct-left, ℕ, ◌≡◌, ◌≢◌,
  refl, sym, subst, ◌∙◌, List, [], ◌∷◌, ◌++◌, append_nil, arith,
}
use assignment.Fs.Block.{update}
use assignment.Bio.Links.{Links, head, push_front, unlink, move_front}

-- The links lead from `a` over `xs` to `z`, and back.
abbrev pub Leads : Links → ℕ → List ℕ → ℕ → Type 0
Leads l a [] z = (l.next a ≡ z) × (l.prev z ≡ a)
Leads l a (x ∷ xs) z = (l.next a ≡ x) × (l.prev x ≡ a) × Leads l x xs z

-- The links are a ring through the head and the buffers `xs`, in this order.
abbrev pub IsLinked : Links → List ℕ → Type 0
IsLinked l xs = Leads l head xs head × IsDistinct (head ∷ xs)

-- The last buffer before the end.
last : ℕ → List ℕ → ℕ
last a [] = a
last a (x ∷ xs) = last x xs

last-Avoids : (a : ℕ) (xs ys : List ℕ) → IsDistinct (a ∷ (xs ++ ys)) → Avoids (last a xs) ys
unfolding last
last-Avoids a [] ys (h, d) = h
last-Avoids a (x ∷ xs) ys (h, d) = last-Avoids x xs ys d

Avoids-last : (c a : ℕ) (xs : List ℕ) → c ≢ a → Avoids c xs → c ≢ last a xs
unfolding last
Avoids-last c a [] ne h = ne
Avoids-last c a (x ∷ xs) ne (ne', h) = Avoids-last c x xs ne' h

Leads-split :
    (l : Links) (a : ℕ) (xs : List ℕ) (b : ℕ) (ys : List ℕ) (z : ℕ)
    → Leads l a (xs ++ (b ∷ ys)) z
    → Leads l a xs b × Leads l b ys z
Leads-split l a [] b ys z (n, p, h) = ((n, p), h)
Leads-split l a (x ∷ xs) b ys z (n, p, h) =
    let r = Leads-split l x xs b ys z h in ((n, p, r.0), r.1)

Leads-join :
    (l : Links) (a : ℕ) (xs : List ℕ) (b : ℕ) (ys : List ℕ) (z : ℕ)
    → Leads l a xs b
    → Leads l b ys z
    → Leads l a (xs ++ (b ∷ ys)) z
Leads-join l a [] b ys z (n, p) h = (n, p, h)
Leads-join l a (x ∷ xs) b ys z (n, p, g) h = (n, p, Leads-join l x xs b ys z g h)

Leads-last : (l : Links) (a : ℕ) (xs : List ℕ) (b : ℕ) → Leads l a xs b → l.prev b ≡ last a xs
unfolding last
Leads-last l a [] b (n, p) = p
Leads-last l a (x ∷ xs) b (n, p, h) = Leads-last l x xs b h

-- A store elsewhere changes no path.
module _ (c d : ℕ) (l : Links) where
  Leads-set_next :
      (a : ℕ) (xs : List ℕ) (z : ℕ)
      → c ≢ a
      → Avoids c xs
      → Leads l a xs z
      → Leads (record l { next = update (l.next) c d }) a xs z
  Leads-set_next a [] z ne h (n, p) = (ground (arith, ne, n), p)
  Leads-set_next a (x ∷ xs) z ne (ne', h) (n, p, g) =
      (ground (arith, ne, n), p, Leads-set_next x xs z ne' h g)

  Leads-set_prev :
      (a : ℕ) (xs : List ℕ) (z : ℕ)
      → c ≢ z
      → Avoids c xs
      → Leads l a xs z
      → Leads (record l { prev = update (l.prev) c d }) a xs z
  Leads-set_prev a [] z ne h (n, p) = (n, ground (arith, ne, p))
  Leads-set_prev a (x ∷ xs) z ne (ne', h) (n, p, g) =
      (n, ground (arith, ne', p), Leads-set_prev x xs z ne h g)

-- `unlink` of a buffer between `p` and `n`.
joined : ℕ → ℕ → Links → Links
joined p n l = record l { next = update (l.next) p n; prev = update (l.prev) n p }

unlink-joined : (b p n : ℕ) (l : Links) → l.next b ≡ n → l.prev b ≡ p → unlink b l ≡ joined p n l
unfolding unlink joined
unlink-joined b p n l en ep =
    let same : update l.prev (l.next b) (l.prev b) b ≡ p = ground (arith, ep) in
    λ i. record l { next = update (l.next) (same i) (en i); prev = update (l.prev) (en i) (ep i) }

-- The path up to the buffer that is taken out ends behind it.
Leads-joined :
    (l : Links) (a : ℕ) (xs : List ℕ) (b n : ℕ)
    → Leads l a xs b
    → IsDistinct (a ∷ xs)
    → Avoids n xs
    → Leads (joined (last a xs) n l) a xs n
unfolding joined last
Leads-joined l a [] b n h d av = (ground arith, ground arith)
Leads-joined l a (x ∷ xs) b n (en, ep, h) (ax, d) (ne, av) =
    let away = Avoids-last a x xs ax.0 ax.1 in
    (ground (arith, away, en), ground (arith, ne, ep), Leads-joined l x xs b n h d av)

-- And the path behind it stays.
joined-Leads :
    (l : Links) (p a : ℕ) (xs : List ℕ) (z : ℕ)
    → p ≢ a
    → Avoids p xs
    → a ≢ z
    → Avoids a xs
    → Leads l a xs z
    → Leads (joined p a l) a xs z
unfolding joined
joined-Leads l p a xs z pa px az ax h =
    Leads-set_prev a p (record l { next = update (l.next) p a }) a xs z az ax
      (Leads-set_next p a l a xs z pa px h)

-- Taking a buffer out of a path.
unlink-Leads :
    (l : Links) (a : ℕ) (xs : List ℕ) (b : ℕ) (ys : List ℕ)
    → Leads l a (xs ++ (b ∷ ys)) a
    → IsDistinct (a ∷ (xs ++ ys))
    → Leads (unlink b l) a (xs ++ ys) a
unlink-Leads l a xs b [] h d =
    let (g, (n, _)) = Leads-split l a xs b [] a h in
    let whole : IsDistinct (a ∷ xs) = subst (λ zs. IsDistinct (a ∷ zs)) (append_nil xs) d in
    subst (λ zs. Leads (unlink b l) a zs a) (sym (append_nil xs))
      (subst (λ m. Leads m a xs a) (sym (unlink-joined b (last a xs) a l n (Leads-last l a xs b g)))
        (Leads-joined l a xs b a g whole whole.0))
unlink-Leads l a xs b (y ∷ ys) h d =
    let (g, (n, _, t)) = Leads-split l a xs b (y ∷ ys) a h in
    let (_, yx, yy) = IsDistinct-middle xs y ys d.1 in
    let (ax, (ay, _)) = Avoids-append a xs (y ∷ ys) d.0 in
    let (py, pys) = last-Avoids a xs (y ∷ ys) d in
    subst (λ m. Leads m a (xs ++ (y ∷ ys)) a)
      (sym (unlink-joined b (last a xs) y l n (Leads-last l a xs b g)))
      (Leads-join (joined (last a xs) y l) a xs y ys a
        (Leads-joined l a xs b y g (ax, IsDistinct-left xs (y ∷ ys) d.1) yx)
        (joined-Leads l (last a xs) y ys a py pys (λ e. ay (sym e)) yy t))

-- Putting a buffer in front of `f`.
fronted : ℕ → ℕ → Links → Links
fronted b f l = record l {
  next = update (update (l.next) b f) head b;
  prev = update (update (l.prev) b head) f b;
}

push_front-fronted :
    (b f : ℕ) (l : Links) → head ≢ b → l.next head ≡ f → push_front b l ≡ fronted b f l
unfolding push_front fronted
push_front-fronted b f l ne e =
    let same : update l.next b (l.next head) head ≡ f = ground (arith, ne, e) in
    λ i. record l {
      next = update (update (l.next) b (e i)) head b;
      prev = update (update (l.prev) b head) (same i) b;
    }

fronted-Leads :
    (b x z : ℕ) (xs : List ℕ) (l : Links)
    → IsDistinct (head ∷ b ∷ x ∷ xs)
    → head ≡ z
    → Leads l x xs z
    → Leads (fronted b x l) x xs z
unfolding fronted
fronted-Leads b x z xs l ((hb, (hx, hxs)), ((bx, bxs), (xxs, d))) e h =
    let bz : b ≢ z = λ q. hb (e ∙ sym q) in
    let xz : x ≢ z = λ q. hx (e ∙ sym q) in
    let l1 : Links = record l { next = update (l.next) b x } in
    let l2 : Links = record l1 { next = update (l1.next) head b } in
    let l3 : Links = record l2 { prev = update (l2.prev) b head } in
    Leads-set_prev x b l3 x xs z xz xxs (
      Leads-set_prev b head l2 x xs z bz bxs
        (Leads-set_next head b l1 x xs z hx hxs (Leads-set_next b x l x xs z bx bxs h)))

pub push_front-Leads :
    (l : Links) (b : ℕ) (xs : List ℕ)
    → Leads l head xs head
    → IsDistinct (head ∷ b ∷ xs)
    → Leads (push_front b l) head (b ∷ xs) head
unfolding fronted
push_front-Leads l b [] (n, p) ((hb, _), _) =
    subst (λ m. Leads m head (b ∷ []) head) (sym (push_front-fronted b head l hb n))
      (refl, ground (arith, hb), (ground (arith, hb), refl))
push_front-Leads l b (x ∷ xs) (n, p, h) ((hb, (hx, hxs)), ((bx, bxs), d)) =
    subst (λ m. Leads m head (b ∷ x ∷ xs) head) (sym (push_front-fronted b x l hb n))
      (
        refl,
        ground (arith, bx),
        (
          ground (arith, hb),
          ground arith,
          fronted-Leads b x head xs l ((hb, (hx, hxs)), ((bx, bxs), d)) refl h,
        ),
      )

-- Moving a buffer to the front of the ring.
pub move_front-IsLinked :
    (l : Links) (xs : List ℕ) (b : ℕ) (ys : List ℕ)
    → IsLinked l (xs ++ (b ∷ ys))
    → IsLinked (move_front b l) (b ∷ (xs ++ ys))
unfolding move_front
move_front-IsLinked l xs b ys (h, (av, d)) =
    let (d', bx, by) = IsDistinct-middle xs b ys d in
    let (hx, (hb, hy)) = Avoids-append head xs (b ∷ ys) av in
    let rest = Avoids-both head xs ys hx hy in
    let all : IsDistinct (head ∷ b ∷ (xs ++ ys)) = ((hb, rest), (Avoids-both b xs ys bx by, d')) in
    (push_front-Leads (unlink b l) b (xs ++ ys) (unlink-Leads l head xs b ys h (rest, d')) all, all)
