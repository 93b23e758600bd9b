-- ===== src/Sync/Pages.antt =====
-- On the pages of `pull` of server/src/transport/http/sync.rs, and on a device that pulls page by page.
use ledgerly.Prelude.{
  Option, ℕ, zero, suc, ◌<◌, ◌≤◌, ◌≡◌, ◌≢◌, ◌∙◌, refl, sym, ap, String, Bool, true, false, List, [],
  ◌∷◌, ◌++◌, none, some, Bool-cases, inl, inr, length, length-append, filter, any, if◌then◌else◌,
  arith,
}
use ledgerly.Prelude.Int.{ℤ, pos}
use ledgerly.State.{ChangeRecord}
use ledgerly.Sync.Log.{IsNumbered}
use ledgerly.Sync.Paging.{
  Rising, NumberedFrom-Rising, filter-Rising, sort_by_sequence_lem, rest_of, fill_page-rest,
  last_from, last_from_lem, last_from-le, above, filter-above_last, filter_after, any-filter,
  Rising-left,
}
use ledgerly.Sync.Pull.{fill_page, is_after, Page, pull_page}

abbrev pub behind_changes :
    List ChangeRecord → Option (List ChangeRecord) → Option (List ChangeRecord)
behind_changes page none = none
behind_changes page (some rest) = some (page ++ rest)

module _ (changes : List ChangeRecord) (book_id : String) where
  -- The changes of the book behind a cursor.
  abbrev behind : ℤ → List ChangeRecord
  behind cursor = filter (is_after book_id cursor) changes

  behind-Rising : (cursor : ℤ) → IsNumbered changes → Rising cursor (behind cursor)
  behind-Rising cursor h =
      filter-Rising book_id (pos 0) cursor changes (NumberedFrom-Rising 0 changes h)

  pub page_changes :
      (cursor : ℤ) (limit : ℕ)
      → IsNumbered changes
      → (pull_page changes book_id cursor limit).changes ≡ fill_page limit none (behind cursor)
  unfolding pull_page
  page_changes cursor limit h =
      rw (sort_by_sequence_lem cursor (behind cursor) (behind-Rising cursor h))

  page_cursor :
      (cursor : ℤ) (limit : ℕ)
      → IsNumbered changes
      → (pull_page changes book_id cursor limit).next_cursor
        ≡ last_from cursor (fill_page limit none (behind cursor))
  unfolding pull_page
  page_cursor cursor limit h =
      rw (sort_by_sequence_lem cursor (behind cursor) (behind-Rising cursor h))
        (last_from_lem cursor (fill_page limit none (behind cursor)))

  page-Rising :
      (cursor : ℤ) (limit : ℕ)
      → IsNumbered changes
      → Rising cursor (fill_page limit none (behind cursor) ++ rest_of limit none (behind cursor))
  page-Rising cursor limit h =
      rw (sym (fill_page-rest limit none (behind cursor))) (behind-Rising cursor h)

  -- What is left behind the page.
  pub behind_page :
      (cursor : ℤ) (limit : ℕ)
      → IsNumbered changes
      → behind (pull_page changes book_id cursor limit).next_cursor
        ≡ rest_of limit none (behind cursor)
  behind_page cursor limit h =
      let le =
        last_from-le cursor page (Rising-left cursor page left (page-Rising cursor limit h)) in
      rw (page_cursor cursor limit h) (
        sym (filter_after book_id cursor (last_from cursor page) changes le)
        ∙ ap (filter (above (last_from cursor page))) (fill_page-rest limit none (behind cursor))
        ∙ filter-above_last cursor page left (page-Rising cursor limit h))
    where
      page : List ChangeRecord
      page = fill_page limit none (behind cursor)

      left : List ChangeRecord
      left = rest_of limit none (behind cursor)

  -- On a numbered log, a page followed by the book's changes behind its `next_cursor` is the book's
  -- changes behind the cursor that was sent: a page skips none and repeats none.
  pub pull_page-split :
      (cursor : ℤ) (limit : ℕ)
      → IsNumbered changes
      → filter (is_after book_id cursor) changes
        ≡ (pull_page changes book_id cursor limit).changes
          ++ filter (is_after book_id (pull_page changes book_id cursor limit).next_cursor) changes
  pull_page-split cursor limit h =
      rw (behind_page cursor limit h, page_changes cursor limit h)
        (fill_page-rest limit none (behind cursor))

  -- `has_more` false means that nothing is left behind the page.
  no_more :
      (cursor : ℤ) (limit : ℕ)
      → (pull_page changes book_id cursor limit).has_more ≡ false
      → behind (pull_page changes book_id cursor limit).next_cursor ≡ []
  unfolding pull_page
  no_more cursor limit h = none_left _ changes h
    where
      none_left :
          (p : ChangeRecord → Bool) (cs : List ChangeRecord) → any p cs ≡ false → filter p cs ≡ []
      none_left p [] e = refl
      none_left p (c ∷ cs) e = let rest = none_left p cs in ground arith

  -- `has_more` true means that the page was taken from something.
  some_more :
      (cursor : ℤ) (limit : ℕ)
      → IsNumbered changes
      → (pull_page changes book_id cursor limit).has_more ≡ true
      → behind cursor ≢ []
  unfolding pull_page
  some_more cursor limit h more empty =
      let left : behind (pull_page changes book_id cursor limit).next_cursor ≡ [] =
        rw (behind_page cursor limit h, empty) refl in
      cc (
        any-filter (is_after book_id (pull_page changes book_id cursor limit).next_cursor) changes
          left)

  shorter :
      (limit : ℕ) (cs : List ChangeRecord)
      → cs ≢ []
      → 1 ≤ limit
      → length (rest_of limit none cs) < length cs
  shorter zero cs ne le = absurd (omega arith)
  shorter (suc n) [] ne le = absurd (ne refl)
  shorter (suc n) (c ∷ cs) ne le =
      let whole = ap length (fill_page-rest n (some c.commit_id) cs) in
      omega
        (arith, length-append (fill_page n (some c.commit_id) cs) (rest_of n (some c.commit_id) cs))

  -- A device that pulls on from `next_cursor` while `has_more` is set; `none` where it has not come to
  -- an end after `fuel` pulls.
  unfoldable pub pull_all : ℕ → ℕ → ℤ → Option (List ChangeRecord)
  pull_all limit zero cursor = none
  pull_all limit (suc fuel) cursor =
      let p = pull_page changes book_id cursor limit in
      let rest = behind_changes p.changes (pull_all limit fuel p.next_cursor) in
      if p.has_more then rest else some p.changes

  -- On a numbered log, with a limit of at least 1, a device that pulls on from `next_cursor` while
  -- `has_more` is set is told after a while that there is no more, and has got exactly the book's
  -- changes behind its first cursor, once each and in order; one pull more than there are such changes is
  -- enough.
  pub pull_all_complete :
      (limit fuel : ℕ) (cursor : ℤ)
      → IsNumbered changes
      → 1 ≤ limit
      → length (filter (is_after book_id cursor) changes) < fuel
      → pull_all limit fuel cursor ≡ some (filter (is_after book_id cursor) changes)
  unfolding pull_all
  pull_all_complete limit zero cursor h le enough = absurd (omega arith)
  pull_all_complete limit (suc fuel) cursor h le enough =
      elim (Bool-cases (pull_page changes book_id cursor limit).has_more) [
        | inr done ↦ rw done (
            ap some (
              sym (
                pull_page-split cursor limit h
                ∙ ap (λ l. p.changes ++ l) (no_more cursor limit done)
                ∙ append-nil p.changes)))
        | inl more ↦
            rw (more, pull_all_complete limit fuel p.next_cursor h le (left more))
              (ap some (sym (pull_page-split cursor limit h)))
      ]
    where
      p : Page
      p = pull_page changes book_id cursor limit

      append-nil : (cs : List ChangeRecord) → cs ++ [] ≡ cs
      append-nil [] = refl
      append-nil (c ∷ cs) = ap (λ l. c ∷ l) (append-nil cs)

      left : p.has_more ≡ true → length (behind p.next_cursor) < fuel
      left more =
          let less = shorter limit (behind cursor) (some_more cursor limit h more) le in
          rw (behind_page cursor limit h) (omega arith)
