-- ===== src/Pmm/Alloc.antt =====
-- `pmm_alloc` and `pmm_alloc_pages` hand out the lowest run of free pages, and fail only if there is
-- none.
mod Search
use blackmount.Common.{
  ℕ, zero, suc, ◌+◌, ◌*◌, ◌≤◌, ◌<◌, ◌≡◌, refl, ◌∙◌, ◌⊎◌, inl, inr, ◌≢◌, Bool, true, false, Option,
  none, some, ◌==◌, if◌then◌else◌, Bool-cases, Option-cases, arith,
}
use blackmount.Memory.{memset}
use blackmount.Memory.Laws.{within, memset_lem}
use blackmount.Pmm.{
  Pmm, page_size, bitmap_test, find_free, find_run, take_page, take_pages, clear_memory, pmm_alloc,
  alloc_run, pmm_alloc_pages,
}
use blackmount.Pmm.IsValid.{IsValid, is_used, is_used-take_page, take_page-IsValid}
use Search.{Found, find_free-Found, find_run-Found}
pub use Search.{IsRun}

-- The `count` pages from `start` on went from free to used, and nothing else changed but that their
-- bytes are 0.
pub record Grants (p : Pmm) (start count : ℕ) (r : ℕ × Pmm) : Type 0 where
  pub address : r.0 ≡ start * page_size
  pub fits : start + count ≤ p.total_pages
  pub were_free : IsRun (is_used p) start count
  pub lowest : (s : ℕ) → s < start → ¬ IsRun (is_used p) s count
  pub now_used : (q : ℕ) → is_used r.1 q ≡ (if within start count q then true else is_used p q)
  pub zeroed :
      (a : ℕ)
      → r.1.mem a ≡ (if within (start * page_size) (count * page_size) a then 0 else p.mem a)
  pub same_total : r.1.total_pages ≡ p.total_pages
  pub valid : IsValid r.1

-- No `count` pages in a row are free, and the state is unchanged.
pub record Refuses (p : Pmm) (count : ℕ) (r : ℕ × Pmm) : Type 0 where
  pub null : r ≡ (0, p)
  pub no_run : (s : ℕ) → s + count ≤ p.total_pages → ¬ IsRun (is_used p) s count

total_pages-take_pages :
    (n : ℕ) (p : Pmm) (page : ℕ) → (take_pages p page n).total_pages ≡ p.total_pages
unfolding take_pages take_page
total_pages-take_pages zero p page = refl
total_pages-take_pages (suc n) p page = total_pages-take_pages n (take_page p page) (page + 1)

mem-take_pages : (n : ℕ) (p : Pmm) (page : ℕ) → (take_pages p page n).mem ≡ p.mem
unfolding take_pages take_page
mem-take_pages zero p page = refl
mem-take_pages (suc n) p page = mem-take_pages n (take_page p page) (page + 1)

total_pages-take_page : (p : Pmm) (page : ℕ) → (take_page p page).total_pages ≡ p.total_pages
unfolding take_page
total_pages-take_page p page = refl

take_pages_lem :
    (n : ℕ) (p : Pmm) (page : ℕ)
    → IsValid p
    → page + n ≤ p.total_pages
    → IsRun (is_used p) page n
    → IsValid (take_pages p page n)
      × ((q : ℕ)
          → is_used (take_pages p page n) q ≡ (if within page n q then true else is_used p q))
unfolding take_pages
take_pages_lem zero p page v fits run = (v, λ q. ground arith)
take_pages_lem (suc n) p page v fits run =
    let here : (q : ℕ) → is_used (take_page p page) q ≡ (if page == q then true else is_used p q) =
      is_used-take_page p page v (omega arith) in
    let rest =
      take_pages_lem n (take_page p page) (page + 1)
        (take_page-IsValid p page v (omega arith) (run page (omega arith) (omega arith)))
        (omega (arith, total_pages-take_page p page)) (λ q lo hi. ground (arith, here q, run q)) in
    (rest.0, λ q. ground (arith, rest.1 q, here q))

-- What the allocator returns for the run that its search found.
grant :
    (p : Pmm) (count start : ℕ)
    → IsValid p
    → Found (is_used p) count p.total_pages (some start)
    → Grants p start count (
      start * page_size,
      clear_memory (take_pages p start count) (start * page_size) (count * page_size),
    )
grant p count start v f =
    let t = take_pages_lem count p start v f.0 f.1 in
    record {
      address = refl;
      fits = f.0;
      were_free = f.1;
      lowest = f.2;
      now_used = t.1;
      zeroed = λ a.
          memset_lem _ (start * page_size) 0 (count * page_size) a
          ∙ (rw (mem-take_pages count p start));
      same_total = total_pages-take_pages count p start;
      valid = record {
        bytes = t.0.bytes;
        room = t.0.room;
        addressable = t.0.addressable;
        counted = t.0.counted;
      };
    }

pmm_alloc_pages_one : (p : Pmm) → pmm_alloc_pages p 1 ≡ pmm_alloc p
unfolding pmm_alloc_pages
pmm_alloc_pages_one p = refl

pmm_alloc_pages_more :
    (p : Pmm) (n : ℕ) → pmm_alloc_pages p (suc (suc n)) ≡ alloc_run p (suc (suc n))
unfolding pmm_alloc_pages
pmm_alloc_pages_more p n = ground arith

module _ (p : Pmm) (v : IsValid p) where
  alloc_run_lem :
      (count : ℕ)
      → 0 < count
      → ((start : ℕ) × Grants p start count (alloc_run p count))
        ⊎ Refuses p count (alloc_run p count)
  unfolding alloc_run
  alloc_run_lem count pos =
      go (find_run p.bitmap count 0 0 0 p.total_pages) refl
        (find_run-Found p.bitmap count p.total_pages pos)
    where
      go :
          (o : Option ℕ)
          → find_run p.bitmap count 0 0 0 p.total_pages ≡ o
          → Found (is_used p) count p.total_pages o
          → ((start : ℕ) × Grants p start count (alloc_run p count))
            ⊎ Refuses p count (alloc_run p count)
      go none e f = inr (record { null = rw (e, alloc_run); no_run = f })
      go (some start) e f = inl (start, rw (e, alloc_run) (grant p count start v f))

  -- A page of `pmm_alloc` is a run of one.
  pub pmm_alloc_lem : ((start : ℕ) × Grants p start 1 (pmm_alloc p)) ⊎ Refuses p 1 (pmm_alloc p)
  unfolding pmm_alloc
  pmm_alloc_lem =
      go (find_free p.bitmap 0 p.total_pages) refl (find_free-Found p.bitmap p.total_pages)
    where
      go :
          (o : Option ℕ)
          → find_free p.bitmap 0 p.total_pages ≡ o
          → Found (is_used p) 1 p.total_pages o
          → ((start : ℕ) × Grants p start 1 (pmm_alloc p)) ⊎ Refuses p 1 (pmm_alloc p)
      go none e f = inr (record { null = rw (e, pmm_alloc); no_run = f })
      go (some start) e f =
          inl (start, rw (e, pmm_alloc) (unfold take_pages in grant p 1 start v f))

  -- `pmm_alloc_pages` of a positive number of pages, for which `pmm_alloc` is one page, either hands
  -- out the lowest run of that many free pages, or returns null and changes nothing because there
  -- is no such run. In either case the allocator stays valid.
  pub pmm_alloc_pages_lem :
      (count : ℕ)
      → 0 < count
      → ((start : ℕ) × Grants p start count (pmm_alloc_pages p count))
        ⊎ Refuses p count (pmm_alloc_pages p count)
  pmm_alloc_pages_lem zero pos = absurd (omega arith)
  pmm_alloc_pages_lem (suc zero) pos = rw (pmm_alloc_pages_one p) pmm_alloc_lem
  pmm_alloc_pages_lem (suc (suc n)) pos =
      rw (pmm_alloc_pages_more p n) (alloc_run_lem (suc (suc n)) pos)
