-- ===== src/Sync/Commits.antt =====
-- On commits and the ends of the pages of `pull`, server/src/transport/http/sync.rs.
use ledgerly.Prelude.{
  ℕ, zero, suc, ◌≡◌, ◌≢◌, sym, String, List, [], ◌∷◌, Option, none, some, Bool-cases, inl, inr,
  filter, get_last?, arith, ◌==◌, eq_iff,
}
use ledgerly.Prelude.Int.{ℤ}
use ledgerly.State.{ChangeRecord}
use ledgerly.Sync.Log.{IsNumbered}
use ledgerly.Sync.Paging.{rest_of}
use ledgerly.Sync.Pages.{page_changes, behind_page}
use ledgerly.Sync.Pull.{fill_page, is_after, pull_page}

-- The commit of the last change that was taken.
abbrev commit_from : Option String → List ChangeRecord → Option String
commit_from last [] = last
commit_from last (c ∷ cs) = commit_from (some c.commit_id) cs

commit_from_lem :
    (last : Option String) (cs : List ChangeRecord) (c : ChangeRecord)
    → get_last? cs ≡ some c
    → commit_from last cs ≡ some c.commit_id
commit_from_lem last [] c e = cc
commit_from_lem last (d ∷ []) c e = ground arith
commit_from_lem last (d ∷ x ∷ xs) c e = commit_from_lem (some d.commit_id) (x ∷ xs) c e

fill_page-whole :
    (room : ℕ) (last : Option String) (cs : List ChangeRecord) (commit : String) (d : ChangeRecord)
    (ds : List ChangeRecord)
    → commit_from last (fill_page room last cs) ≡ some commit
    → rest_of room last cs ≡ d ∷ ds
    → commit ≢ d.commit_id
unfolding fill_page
fill_page-whole zero none [] commit d ds e q = cc
fill_page-whole zero (some k) [] commit d ds e q = absurd (cc)
fill_page-whole (suc room) last [] commit d ds e q = absurd (cc)
fill_page-whole (suc room) last (c ∷ cs) commit d ds e q =
    fill_page-whole room (some c.commit_id) cs commit d ds e q
fill_page-whole zero none (c ∷ cs) commit d ds e q = absurd (cc)
fill_page-whole zero (some k) (c ∷ cs) commit d ds e q = elim (Bool-cases (k == c.commit_id)) [
  | inl same ↦
      let k_is : k ≡ c.commit_id = (eq_iff k c.commit_id).0 same in
      fill_page-whole zero (some k) cs commit d ds (rw (same, sym k_is) at e) (rw same at q)
  | inr other ↦
      let here : c ≡ d = ground arith in
      let taken : some k ≡ some commit = rw other at e in
      λ clash. ground (arith, eq_iff k c.commit_id)
]

-- On a numbered log, the last change of a page and the first change of the book behind the page
-- belong to different commits: no page ends inside a run of changes of one commit.
pub pull_page-whole :
    (changes : List ChangeRecord) (book_id : String) (cursor : ℤ) (limit : ℕ) (c d : ChangeRecord)
    (ds : List ChangeRecord)
    → IsNumbered changes
    → get_last? (pull_page changes book_id cursor limit).changes ≡ some c
    → filter (is_after book_id (pull_page changes book_id cursor limit).next_cursor) changes
      ≡ d ∷ ds
    → c.commit_id ≢ d.commit_id
pull_page-whole changes book_id cursor limit c d ds h last next =
    let behind = filter (is_after book_id cursor) changes in
    fill_page-whole limit none behind c.commit_id d ds
      (commit_from_lem none (fill_page limit none behind) c
        (rw (page_changes changes book_id cursor limit h) at last))
      (rw (behind_page changes book_id cursor limit h) at next)
