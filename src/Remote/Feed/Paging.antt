-- ===== src/Remote/Feed/Paging.antt =====
-- A controller that reads the feed page by page misses nothing and sees nothing twice.
use vanth.Prelude.{
  ℕ, zero, suc, ◌+◌, ◌≤◌, ◌<◌, ◌≡◌, refl, sym, ap, subst, ◌∙◌, inl, inr, Bool, true, false, ◌&&◌,
  String, Option, List, [], ◌∷◌, ◌++◌, arith, length, take, ltb, Bool-cases,
}
use vanth.Prelude.Rows.{select}
use vanth.Remote.Feed.{FeedRow, FeedStore, epochs, insert, append, after_cursor, read_rows, read}

-- The table is in the order of its keys, and no key is above the last one given.
unfoldable pub in_order : ℕ → List FeedRow → Bool
in_order last [] = true
in_order last (r ∷ rs) = ltb last r.seq && in_order r.seq rs

unfoldable pub last_of : ℕ → List FeedRow → ℕ
last_of last [] = last
last_of last (r ∷ rs) = last_of r.seq rs

pub record IsOrdered (store : FeedStore) : Type 0 where
  pub order : in_order 0 store.rows ≡ true
  pub top : last_of 0 store.rows ≤ store.last_seq

order-append :
    (last : ℕ) (rs : List FeedRow) (r : FeedRow)
    → in_order last rs ≡ true
    → last_of last rs < r.seq
    → (in_order last (rs ++ r ∷ []) ≡ true) × (last_of last (rs ++ r ∷ []) ≡ r.seq)
unfolding in_order last_of
order-append last [] r h above = (ground arith, refl)
order-append last (x ∷ rs) r h above =
    let rest : in_order x.seq rs ≡ true = ground arith in
    let (order, top) = order-append x.seq rs r rest above in (rw order (ground arith), top)

-- A change that is appended takes the next number, and keeps the table in order.
pub append-IsOrdered :
    (now : ℕ) (kind : String) (job_id : Option String) (payload : String) (store : FeedStore)
    → IsOrdered store
    → IsOrdered (append now kind job_id payload store).1
unfolding append insert
append-IsOrdered now kind job_id payload store v =
    let (order, top) = order-append 0 store.rows _ v.order (omega (arith, v.top)) in
    record { order = order; top = omega (arith, top) }

-- The cursor after a page.
abbrev pub next_cursor : ℕ → List FeedRow → ℕ
next_cursor cursor [] = cursor
next_cursor cursor (r ∷ rs) = next_cursor r.seq rs

abbrev drop : ℕ → List FeedRow → List FeedRow
drop zero rs = rs
drop (suc n) [] = []
drop (suc n) (r ∷ rs) = drop n rs

empty_page : (n : ℕ) → take {A = FeedRow} n [] ≡ []
empty_page zero = refl
empty_page (suc n) = refl

take-add : (n m : ℕ) (rs : List FeedRow) → take (n + m) rs ≡ take n rs ++ take m (drop n rs)
take-add zero m rs = let e : 0 + m ≡ m = omega arith in ap (λ k. take k rs) e
take-add (suc n) m [] = empty_page (suc n + m) ∙ sym (empty_page m)
take-add (suc n) m (r ∷ rs) =
    let e : suc n + m ≡ suc (n + m) = omega arith in
    ap (λ k. take k (r ∷ rs)) e ∙ ap (λ l. r ∷ l) (take-add n m rs)

-- A page that is not full holds all.
short_take :
    (n m : ℕ) (rs : List FeedRow)
    → ¬ (length (take (suc n) rs) ≡ suc n)
    → take (suc n + m) rs ≡ take (suc n) rs
short_take n m [] h = empty_page (suc n + m)
short_take zero m (r ∷ rs) h = absurd (h refl)
short_take (suc n) m (r ∷ rs) h =
    let e : suc (suc n) + m ≡ suc (suc n + m) = omega arith in
    ap (λ k. take k (r ∷ rs)) e ∙ ap (λ l. r ∷ l) (short_take n m rs (λ k. h (ap suc k)))

module _ (at : ℕ × ℕ) where
  abbrev after : ℕ → List FeedRow → List FeedRow
  after cursor rows = select (after_cursor at cursor) rows

  -- Rows above a cursor are the current ones.
  above_all :
      (cursor last : ℕ) (rs : List FeedRow)
      → cursor ≤ last
      → in_order last rs ≡ true
      → after cursor rs ≡ after last rs
  unfolding in_order select after_cursor
  above_all cursor last [] h o = refl
  above_all cursor last (r ∷ rs) h o =
      let rest : in_order r.seq rs ≡ true = ground arith in
      let here : last < r.seq = ground arith in
      let first : after cursor rs ≡ after r.seq rs = above_all cursor r.seq rs (omega arith) rest in
      let second : after last rs ≡ after r.seq rs = above_all last r.seq rs (omega arith) rest in
      rw (first, second) (ground arith)

  -- What follows a row in the table is above its number.
  beyond :
      (cursor last : ℕ) (r : FeedRow) (rs : List FeedRow)
      → in_order last (r ∷ rs) ≡ true
      → after_cursor at cursor r ≡ true
      → after cursor rs ≡ after r.seq rs
  unfolding in_order after_cursor
  beyond cursor last r rs o e = above_all cursor r.seq rs (ground arith) (ground arith)

  cursor_grows :
      (cursor last : ℕ) (rs : List FeedRow) (n : ℕ)
      → in_order last rs ≡ true
      → cursor ≤ next_cursor cursor (take n (after cursor rs))
  unfolding in_order select
  cursor_grows cursor last [] zero o = omega arith
  cursor_grows cursor last [] (suc n) o = omega arith
  cursor_grows cursor last (r ∷ rs) zero o = omega arith
  cursor_grows cursor last (r ∷ rs) (suc n) o =
      let rest : in_order r.seq rs ≡ true = ground arith in
      elim (Bool-cases (after_cursor at cursor r)) [
        | inl e ↦
            let up : cursor < r.seq = below cursor r e in
            let more : r.seq ≤ next_cursor r.seq (take n (after r.seq rs)) =
              cursor_grows r.seq r.seq rs n rest in
            rw (e, beyond cursor last r rs o e) (omega arith)
        | inr e ↦ rw e (cursor_grows cursor r.seq rs (suc n) rest)
      ]
    where
      below : (c : ℕ) (x : FeedRow) → after_cursor at c x ≡ true → c < x.seq
      below c x e = unfold after_cursor in ground arith

  not_again :
      (cursor later : ℕ) (r : FeedRow)
      → cursor ≤ later
      → after_cursor at cursor r ≡ false
      → after_cursor at later r ≡ false
  unfolding after_cursor
  not_again cursor later r h e = ground arith

  passed : (later : ℕ) (r : FeedRow) → r.seq ≤ later → after_cursor at later r ≡ false
  unfolding after_cursor
  passed later r h = ground arith

  -- The rows after a page are those that the page left.
  rest_of :
      (cursor last : ℕ) (rs : List FeedRow) (n : ℕ)
      → in_order last rs ≡ true
      → after (next_cursor cursor (take n (after cursor rs))) rs ≡ drop n (after cursor rs)
  unfolding in_order select
  rest_of cursor last rs zero o = refl
  rest_of cursor last [] (suc n) o = refl
  rest_of cursor last (r ∷ rs) (suc n) o =
      let rest : in_order r.seq rs ≡ true = ground arith in
      elim (Bool-cases (after_cursor at cursor r)) [
        | inl e ↦
            let more : r.seq ≤ next_cursor r.seq (take n (after r.seq rs)) =
              cursor_grows r.seq r.seq rs n rest in
            let page : after cursor (r ∷ rs) ≡ r ∷ after r.seq rs =
              rw e (ap (λ l. r ∷ l) (beyond cursor last r rs o e)) in
            let skip : after (next_cursor r.seq (take n (after r.seq rs))) (r ∷ rs)
                ≡ after (next_cursor r.seq (take n (after r.seq rs))) rs =
              rw (passed (next_cursor r.seq (take n (after r.seq rs))) r more) refl in
            subst (λ l. after (next_cursor cursor (take (suc n) l)) (r ∷ rs) ≡ drop (suc n) l)
              (sym page) (skip ∙ rest_of r.seq r.seq rs n rest)
        | inr e ↦
            let page : after cursor (r ∷ rs) ≡ after cursor rs = rw e refl in
            let skip : after (next_cursor cursor (take (suc n) (after cursor rs))) (r ∷ rs)
                ≡ after (next_cursor cursor (take (suc n) (after cursor rs))) rs =
              rw
                (not_again cursor (next_cursor cursor (take (suc n) (after cursor rs))) r
                  (cursor_grows cursor r.seq rs (suc n) rest) e)
                refl in
            subst (λ l. after (next_cursor cursor (take (suc n) l)) (r ∷ rs) ≡ drop (suc n) l)
              (sym page) (skip ∙ rest_of cursor r.seq rs (suc n) rest)
      ]

-- A page and the page after it are one page of their size together: nothing is missed, and nothing
-- is read twice.
pub read-pages :
    (store : FeedStore) (cursor n m : ℕ)
    → IsOrdered store
    → (read store cursor (n + m)).changes
      ≡ (read store cursor n).changes
        ++ (read store (next_cursor cursor (read store cursor n).changes) m).changes
unfolding read read_rows
read-pages store cursor n m v =
    take-add n m (after (epochs store) cursor store.rows)
    ∙ ap (λ l. take n (after (epochs store) cursor store.rows) ++ take m l)
        (sym (rest_of (epochs store) cursor 0 store.rows n v.order))

-- Where a page of at least one change says that there is no more, it holds every change of the
-- current epochs after the cursor, whatever the limit.
pub read-last :
    (store : FeedStore) (cursor n m : ℕ)
    → (read store cursor (suc n)).has_more ≡ false
    → (read store cursor (suc n + m)).changes ≡ (read store cursor (suc n)).changes
unfolding read read_rows
read-last store cursor n m h =
    short_take n m (after (epochs store) cursor store.rows) (ground arith)
