-- ===== src/Services/Paging.antt =====
-- Listings in pages: the loops of `FindInstanceForMachine` and `FindBareMetalServerByTags` differ
-- in the call, the test and the message of an error alone, and this loop is both of them.
use mathlib.Core.List.{append_assoc}
use cluster_api_provider_vul.Base.{
  ℕ, zero, suc, ◌≤◌, ◌<◌, ◌≡◌, ◌≢◌, refl, ◌∙◌, ◌⊎◌, inl, inr, none, some, Option-cases, String,
  string_eq, ◌==◌, Bool, true, false, false≢true, Bool-cases, if◌then◌else◌, eq_iff, eq_false_of_ne,
  arith, GoError, ok, out_of_fuel, List, ◌++◌, select, select-append,
}
use cluster_api_provider_vul.Base.Exec.{Exec, call, pure, raise, stops, ◌>>=◌}
use cluster_api_provider_vul.Govultr.{ListOptions, Reply, next_cursor}

module _ {W A : Type 0} (list : ListOptions → W → Reply (List A) × W) where
  abbrev reply : ListOptions → W → Reply (List A)
  reply o w = (list o w).0

  abbrev world_after : ListOptions → W → W
  world_after o w = (list o w).1

  abbrev pub next_page : ListOptions → W → ListOptions
  next_page o w = record o { cursor = next_cursor (reply o w).meta }

  -- Successful calls of the list from the world `w` and the options `o` on, each with the cursor of
  -- the reply before, until a reply has none: they list `l` and end in the world `w'`.
  pub data Pages : W → ListOptions → List A → W → Type 0 where
    last :
        {w w' : W} {o : ListOptions} {l : List A}
        → (reply o w).error ≡ none
        → next_cursor (reply o w).meta ≡ ""
        → l ≡ (reply o w).value
        → w' ≡ world_after o w
        → Pages w o l w'
    more :
        {w w' : W} {o : ListOptions} {l : List A} (rest : List A)
        → (reply o w).error ≡ none
        → next_cursor (reply o w).meta ≢ ""
        → l ≡ (reply o w).value ++ rest
        → Pages (world_after o w) (next_page o w) rest w'
        → Pages w o l w'

  unfoldable pub page_count : {w : W} {o : ListOptions} {l : List A} {w' : W} → Pages w o l w' → ℕ
  page_count (last fine ended same world) = 1
  page_count (more rest fine goes_on same pages) = suc (page_count pages)

  -- A rank that every reply with a next cursor lowers: the server's listing comes to an end.
  abbrev pub Ends : (W → String → ℕ) → Type 0
  Ends rank =
      (o : ListOptions) (w : W)
      → next_cursor (list o w).0.meta ≢ ""
      → rank (list o w).1 (next_cursor (list o w).0.meta) < rank w o.cursor

  module _ (wrap : GoError → GoError) (f : A → Bool) where
    -- The loop: what passes the test on every page.
    unfoldable pub select_pages : ℕ → ListOptions → List A → Exec W (List A)
    unfolding ◌>>=◌
    select_pages zero o matches = stops
    select_pages (suc fuel) o matches = do
      r ← call (list o)
      let matches' = matches ++ select f r.value
      let next = select_pages fuel (record o { cursor = next_cursor r.meta }) matches'
      elim r.error [
        | some e ↦ raise (wrap e)
        | none ↦ if next_cursor r.meta == "" then pure matches' else next
      ]

    -- With fuel for all pages, it selects from all of them.
    pub select_of_pages :
        (fuel : ℕ) (matches : List A) {w : W} {o : ListOptions} {l : List A} {w' : W}
        (pages : Pages w o l w')
        → page_count pages ≤ fuel
        → select_pages fuel o matches w ≡ (ok (matches ++ select f l), w')
    unfolding select_pages page_count
    select_of_pages zero matches (last fine ended same world) enough = absurd (omega arith)
    select_of_pages zero matches (more rest fine goes_on same pages) enough = absurd (omega arith)
    select_of_pages (suc fuel) matches (last fine ended same world) enough =
        rw (fine, ended, same, world)
    select_of_pages (suc fuel) matches {w} {o} (more rest fine goes_on same pages) enough =
        rw (fine, eq_false_of_ne (next_cursor (reply o w).meta) "" goes_on, same)
          (select_of_pages fuel (matches ++ select f (reply o w).value) pages (omega arith)
            ∙ simp (select-append, append_assoc))

    -- What it returns is what it selects from the pages that it saw.
    pub pages_of_select :
        (fuel : ℕ) (o : ListOptions) (matches : List A) (w : W) (found : List A)
        → (select_pages fuel o matches w).0 ≡ ok found
        → (l : List A) × Pages w o l (select_pages fuel o matches w).1
          × (found ≡ matches ++ select f l)
    unfolding select_pages
    pages_of_select zero o matches w found e = absurd cc
    pages_of_select (suc fuel) o matches w found e =
        at (Option-cases r.error) (Bool-cases (next_cursor r.meta == ""))
          (pages_of_select fuel o' (matches ++ select f r.value) w' found)
      where
        r : Reply (List A)
        r = (list o w).0

        w' : W
        w' = (list o w).1

        o' : ListOptions
        o' = record o { cursor = next_cursor r.meta }

        Result : ℕ → ListOptions → List A → W → Type 0
        Result n options before v =
            (l : List A) × Pages v options l (select_pages n options before v).1
            × (found ≡ before ++ select f l)

        at :
            (r.error ≡ none) ⊎ ((x : GoError) × (r.error ≡ some x))
            → ((next_cursor r.meta == "") ≡ true) ⊎ ((next_cursor r.meta == "") ≡ false)
            → ((select_pages fuel o' (matches ++ select f r.value) w').0 ≡ ok found
                → Result fuel o' (matches ++ select f r.value) w')
            → Result (suc fuel) o matches w
        at (inr (x, failed)) ended rest = absurd (ground (arith, failed, e))
        at (inl fine) (inl ended) rest =
            let end : select_pages (suc fuel) o matches w ≡ (ok (matches ++ select f r.value), w') =
              rw (fine, ended) refl in
            (
              r.value,
              rw end (last fine ((eq_iff (next_cursor r.meta) "").0 ended) refl refl),
              ground (arith, end, e),
            )
        at (inl fine) (inr goes_on) rest =
            let on : select_pages (suc fuel) o matches w
                ≡ select_pages fuel o' (matches ++ select f r.value) w' =
              rw (fine, goes_on) refl in
            let (l, pages, same) = rest (ground (arith, on, e)) in
            (
              r.value ++ l,
              rw on (
                  more l fine
                    (λ h. false≢true (ground (arith, eq_iff (next_cursor r.meta) "", goes_on, h)))
                    refl pages),
              same ∙ simp (select-append, append_assoc),
            )

    -- A listing that comes to an end is read to its end.
    pub select_pages-ne-out_of_fuel :
        (rank : W → String → ℕ)
        → Ends rank
        → (fuel : ℕ) (o : ListOptions) (matches : List A) (w : W) → rank w o.cursor < fuel
        → (select_pages fuel o matches w).0 ≢ out_of_fuel
    unfolding select_pages
    select_pages-ne-out_of_fuel rank ends zero o matches w lt = absurd (omega arith)
    select_pages-ne-out_of_fuel rank ends (suc fuel) o matches w lt =
        let r = (list o w).0 in
        ground (
          arith,
          ends o w,
          eq_iff (next_cursor r.meta) "",
          select_pages-ne-out_of_fuel rank ends fuel (record o { cursor = next_cursor r.meta })
              (matches ++ select f r.value) (list o w).1,
        )
