-- ===== src/Admin/Dead/Browse.antt =====
-- Following the Older links of the dead-letter pages.
use novaque.Prelude.{
  ℕ, zero, suc, ◌+◌, ◌≤◌, ◌<◌, ◌≡◌, refl, sym, ap, subst, ◌∙◌, inl, inr, Bool, true, false, ◌||◌,
  Option, none, some, List, [], ◌++◌, ltb, ◌==◌, arith, Bool-cases, if◌then◌else◌,
}
use novaque.Prelude.Int.{pos}
use novaque.Prelude.Lists.{length, take, drop, select}
use novaque.Prelude.Rows.{All-mono, All-select_test}
use novaque.Store.Errors.{Result, ok, err}
use novaque.Store.Types.{DeadDelivery}
use novaque.Sqlite.Schema.{Db}
use novaque.Sqlite.Engine.{Tick}
use novaque.Sqlite.Invariant.{IsValid}
use novaque.Sqlite.Admin.Dead.{before_key, select_dead}
use novaque.Sqlite.Admin.Dead.Pages.{Desc, dead_letters, dead_letters-Desc, select_dead-reads}
use novaque.Admin.Replies.{ChannelMeta, DeadRowView, DeadView}
use novaque.Admin.Dead.{dead_page_size, dead_body_truncate, row_views, last_id, dead_view}
use novaque.Admin.Dead.Cursor.{
  last-below, last-positive, select-rest, select-twice, Desc-select, take-short, take-take,
  length-take, length-drop, row_views-split, take-whole,
}

abbrev pub or_none : Result (List DeadDelivery) → List DeadDelivery
or_none (ok rows) = rows
or_none (err e) = []

-- A page of more rows than it shows, and the last page.
dead_view-full :
    (meta : ChannelMeta) (now before : ℕ) (rows : List DeadDelivery)
    → 50 < length rows
    → let v = dead_view meta now before (take 51 rows) in
      (v.has_older ≡ true)
      × (v.rows ≡ row_views now (take 50 rows))
      × (v.older_before ≡ last_id 0 (take 50 rows))
unfolding dead_view
dead_view-full meta now before rows h =
    rw (length-take 51 rows (omega (arith, h)), take-take 50 rows) (refl, refl, refl)

dead_view-last :
    (meta : ChannelMeta) (now before : ℕ) (rows : List DeadDelivery)
    → length rows ≤ 50
    → let v = dead_view meta now before (take 51 rows) in
      (v.has_older ≡ false) × (v.rows ≡ row_views now rows)
unfolding dead_view
dead_view-last meta now before rows h =
    let fits : ltb 50 (length rows) ≡ false = ground (arith, h) in
    rw (take-short 51 rows (omega (arith, h)), fits) (refl, refl)

abbrev after_rows : List DeadRowView → Option (List DeadRowView) → Option (List DeadRowView)
after_rows rows none = none
after_rows rows (some older) = some (rows ++ older)

-- A page and, if it has an Older link, what that leads to.
abbrev with_older : DeadView → Option (List DeadRowView) → Option (List DeadRowView)
with_older v older = if v.has_older then after_rows v.rows older else some v.rows

turn :
    (v : DeadView) (older : List DeadRowView) {rows : List DeadRowView}
    → v.has_older ≡ true
    → v.rows ++ older ≡ rows
    → with_older v (some older) ≡ some rows
turn v older h k = rw h (ap some k)

rest_absent :
    (v : DeadView) (older : Option (List DeadRowView))
    → v.has_older ≡ false
    → with_older v older ≡ some v.rows
rest_absent v older h = rw h refl

inside :
    (before c i : ℕ)
    → ltb i c ≡ true
    → ((before == 0) ≡ false → c < before)
    → before_key (pos before) i ≡ true
inside before c i h k = elim (Bool-cases (before == 0)) [
  | inl e ↦ rw e refl
  | inr e ↦ ground (arith, h, k e, e)
]

ok_same : {xs ys : List DeadDelivery} → ok xs ≡ ok ys → xs ≡ ys
ok_same h = cc

module _ (meta : ChannelMeta) (now : ℕ) (t : Tick) (db : Db) (channel : ℕ) where
  -- The page of a cursor, as loadDeadList makes it of what the database reads.
  abbrev pub read_page : ℕ → DeadView
  read_page before =
      dead_view meta now before
        (or_none (select_dead channel (pos before) (dead_page_size + 1) dead_body_truncate t db).0)

  -- The rows of the page and of those that its Older links lead to, or none if there are more than `n`
  -- pages in all.
  pub browse : ℕ → ℕ → Option (List DeadRowView)
  browse zero before = none
  browse (suc n) before =
      let v = read_page before in let older = browse n v.older_before in with_older v older

  abbrev rows_at : ℕ → List DeadDelivery
  rows_at before =
      select (λ r. before_key (pos before) r.id) (dead_letters db dead_body_truncate channel)

  page_rows :
      (before : ℕ)
      → IsValid db
      → read_page before ≡ dead_view meta now before (take 51 (rows_at before))
  page_rows before v =
      ap (λ r. dead_view meta now before (or_none r))
        (select_dead-reads db dead_body_truncate channel before 51 t v)

  -- The Older cursor is below the page's own.
  older_cursor :
      (before : ℕ)
      → 50 < length (rows_at before)
      → (before == 0) ≡ false
      → last_id 0 (take 50 (rows_at before)) < before
  older_cursor before h later =
      last-below 49 0 before (rows_at before)
        (All-mono (rows_at before) (λ r k. ground (arith, k, later))
          (All-select_test (λ r. before_key (pos before) r.id)
            (dead_letters db dead_body_truncate channel)))
        (omega (arith, h))

  -- The Older cursor of a full page takes the rest of the rows.
  older_rows :
      (before : ℕ)
      → IsValid db
      → 50 < length (rows_at before)
      → rows_at (last_id 0 (take 50 (rows_at before))) ≡ drop 50 (rows_at before)
  older_rows before v h =
      let all = dead_letters db dead_body_truncate channel in
      let rows = rows_at before in
      let c = last_id 0 (take 50 rows) in
      let desc : Desc rows =
        Desc-select _ all (dead_letters-Desc db dead_body_truncate channel v) in
      let positive : (c == 0) ≡ false = ground (arith, last-positive 49 0 rows desc h) in
      ap (λ (b : Bool). select (λ r. b || ltb r.id c) all) positive
      ∙ sym (
          select-twice (λ r. before_key (pos before) r.id) (λ r. ltb r.id c) all
            (λ x k. inside before c x.id k (older_cursor before h)))
      ∙ select-rest 49 0 rows desc (omega (arith, h))

  browse-rows :
      (n before : ℕ)
      → IsValid db
      → length (rows_at before) < n
      → browse n before ≡ some (row_views now (rows_at before))
  unfolding browse
  browse-rows zero before v h = absurd (omega arith)
  browse-rows (suc n) before v h = elim (Bool-cases (ltb 50 (length (rows_at before)))) [
    | inl e ↦
        let rows = rows_at before in
        let long : 50 < length rows = ground arith in
        let page = page_rows before v in
        let full = dead_view-full meta now before rows long in
        let rest = length-drop 50 rows (omega (arith, long)) in
        let cursor : (read_page before).older_before ≡ last_id 0 (take 50 rows) =
          ap (λ p. p.older_before) page ∙ full.2 in
        let next = older_rows before v long in
        let later : browse n (last_id 0 (take 50 rows)) ≡ some (row_views now (drop 50 rows)) =
          browse-rows n (last_id 0 (take 50 rows)) v
            (subst (λ (xs : List DeadDelivery). length xs < n) (sym next) (omega (arith, rest, h)))
          ∙ ap (λ xs. some (row_views now xs)) next in
        ap (with_older (read_page before)) (ap (browse n) cursor ∙ later)
        ∙ turn (read_page before) (row_views now (drop 50 rows))
            (ap (λ p. p.has_older) page ∙ full.0)
            (ap (λ xs. xs ++ row_views now (drop 50 rows)) (ap (λ p. p.rows) page ∙ full.1)
              ∙ row_views-split now 50 rows)
    | inr e ↦
        let rows = rows_at before in
        let short : length rows ≤ 50 = ground arith in
        let page = page_rows before v in
        let whole = dead_view-last meta now before rows short in
        rest_absent (read_page before) (browse n (read_page before).older_before)
          (ap (λ p. p.has_older) page ∙ whole.0)
        ∙ ap some (ap (λ p. p.rows) page ∙ whole.1)
  ]

  -- On one snapshot of a well-formed database, the dead-letter page without a cursor and the pages that
  -- its Older links lead to show together what one read without a bound gives: every dead row of
  -- the channel, each once, from the highest id down. The links end after as many pages as there are
  -- rows, or fewer, and one more.
  pub browse-all :
      (limit : ℕ) (all : List DeadDelivery)
      → IsValid db
      → (select_dead channel (pos 0) limit dead_body_truncate t db).0 ≡ ok all
      → length all < limit
      → (browse (suc (length all)) 0 ≡ some (row_views now all)) × Desc all
  browse-all limit all v read bound =
      let exact : take limit (rows_at 0) ≡ all =
        ok_same (sym (select_dead-reads db dead_body_truncate channel 0 limit t v) ∙ read) in
      let whole : rows_at 0 ≡ all =
        sym (
          take-whole limit (rows_at 0)
            (subst (λ (xs : List DeadDelivery). length xs < limit) (sym exact) bound))
        ∙ exact in
      let fits : length (rows_at 0) < suc (length all) = omega (arith, ap length whole) in
      (
        browse-rows (suc (length all)) 0 v fits ∙ ap (λ xs. some (row_views now xs)) whole,
        subst Desc whole (
            Desc-select (λ r. before_key (pos 0) r.id) _
              (dead_letters-Desc db dead_body_truncate channel v)),
      )
