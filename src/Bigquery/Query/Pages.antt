-- ===== src/Bigquery/Query/Pages.antt =====
-- What a job is read as: the rows of its pages, put one behind the other.
use data_looker.Prelude.{
  ℕ, zero, suc, ◌%◌, ◌^◌, ◌≤◌, ◌<◌, ◌≡◌, refl, sym, ap, ◌∙◌, subst, Bool, true, false, ◌||◌, Option,
  none, some, List, [], ◌∷◌, ◌++◌, map, ltb, length, take, length-append, arith, Bool-cases, inl,
  inr, append_assoc, append-nil, map-append, lt→ltb, ltb→lt,
}
use data_looker.Text.{Text}
use data_looker.Map.{is_some}
use data_looker.Json.{Value}
use data_looker.Error.{ok}
use data_looker.Bigquery.Api.{Field, Row, Answer, Query}
use data_looker.Bigquery.Value.{Readers}
use data_looker.Bigquery.Query.{
  hold_ms, page_rows, or_nothing, or_a_page, or_false, count, page_of, request, cells, replied,
  Client, QueryResult, Outcome, ask, poll, more, gather, gather_all, over, wanted_rows, start,
  execute, collect, column_of,
}

abbrev pub concat : List (List Row) → List Row
concat [] = []
concat (p ∷ ps) = p ++ concat ps

take-append : {A : Type 0} (n : ℕ) (xs ys : List A) → n ≤ length xs → take n (xs ++ ys) ≡ take n xs
take-append zero xs ys h = refl
take-append (suc n) [] ys h = absurd (no h)
  where
    no : suc n ≤ 0 → ⊥
    no h = omega arith
take-append (suc n) (x ∷ xs) ys h = ap (λ l. x ∷ l) (take-append n xs ys (omega arith))

module _ (client : Client) (project_id location job : Text) where
  open client use {Server, query, query_results}

  -- The server answers a token with these pages, one after the other, and no token with the last.
  abbrev pub Holds : List (List Row) → Option Text → Server → Type 0
  Holds [] none s = Unit
  Holds [] (some token) s = ⊥
  Holds (p ∷ ps) none s = ⊥
  Holds (p ∷ ps) (some token) s =
      (answer : Answer) × (after : Server) × (query_results project_id job location page_rows
          hold_ms (some token) s
        ≡ (replied (ok answer), after))
      × (or_nothing answer.rows ≡ p)
      × Holds ps answer.page_token after

  -- The job runs on through so many more answers, the last of which says that it is complete.
  abbrev pub Runs : ℕ → ℕ → Answer → Server → Answer → Server → Type 0
  Runs zero wanted answer s last after =
      (or_false answer.job_complete ≡ true) × (answer ≡ last) × (s ≡ after)
  Runs (suc n) wanted answer s last after =
      (or_false answer.job_complete ≡ false)
      × (answer' : Answer) × (s' : Server) × (query_results project_id job location wanted hold_ms
            none s
          ≡ (replied (ok answer'), s'))
      × Runs n wanted answer' s' last after

  poll-Runs :
      (n fuel wanted : ℕ) (answer : Answer) (s : Server) (last : Answer) (after : Server)
      → n < fuel
      → Runs n wanted answer s last after
      → poll client project_id location fuel
          (some job)
          wanted
          (page_of answer (some job))
          (or_false answer.job_complete)
          s
        ≡ some (ok (page_of last (some job)), after)
  unfolding poll ask
  poll-Runs n zero wanted answer s last after h r = absurd (no h)
    where
      no : n < 0 → ⊥
      no h = omega arith
  poll-Runs zero (suc fuel) wanted answer s last after h (c, e, f) = rw c (
      ap (λ a. some (ok (page_of a (some job)), s)) e
      ∙ ap (λ t. some (ok (page_of last (some job)), t)) f)
  poll-Runs (suc n) (suc fuel) wanted answer s last after h (c, answer', s', e, r) =
      rw (c, e) (poll-Runs n fuel wanted answer' s' last after (omega arith) r)

  more-page :
      {A : Type 0} (read : List Row → List A)
      (again : List A → Option Text → Option Text → Server → Outcome client (List A × Option Text))
      (rows : List A) (token : Text) (s : Server) (answer : Answer) (after : Server)
      → query_results project_id job location page_rows hold_ms (some token) s
        ≡ (replied (ok answer), after)
      → more client project_id location read again rows (some token) (some job) s
        ≡ again (rows ++ read (or_nothing answer.rows)) answer.page_token (some job) after
  unfolding more ask page_of
  more-page read again rows token s answer after e = rw e refl

  -- What the loop of `execute` ends with, `whole` being all the rows there are.
  abbrev Gathered : ℕ → List Row → Outcome client (List Row × Option Text) → Type 0
  Gathered limit whole outcome =
      (rows : List Row) × (next : Option Text) × (after : Server) × (outcome
        ≡ some (ok (rows, next), after))
      × (take limit rows ≡ take limit whole)
      × ((ltb limit (length rows) || is_some next) ≡ ltb limit (length whole))

  Gathered-full :
      (fuel limit : ℕ) (rows rest : List Row) (next : Option Text) (s : Server)
      → ltb limit (length rows) ≡ true
      → Gathered limit
          (rows ++ rest)
          (gather client project_id location (suc fuel) limit rows next (some job) s)
  unfolding gather
  Gathered-full fuel limit rows rest next s e =
      let h : limit < length rows = ltb→lt limit (length rows) e in
      let whole : ltb limit (length (rows ++ rest)) ≡ true =
        lt→ltb limit (length (rows ++ rest)) (omega (arith, h, length-append rows rest)) in
      (
        rows,
        next,
        s,
        rw e refl,
        sym (take-append limit rows rest (omega (arith, h))),
        rw (e, whole) refl,
      )

  gather-more :
      (fuel limit : ℕ) (rows : List Row) (next : Option Text) (s : Server)
      → ltb limit (length rows) ≡ false
      → gather client project_id location (suc fuel) limit rows next (some job) s
        ≡ more client project_id location
            (λ new. new)
            (gather client project_id location fuel limit)
            rows
            next
            (some job)
            s
  unfolding gather
  gather-more fuel limit rows next s e = rw e refl

  Gathered-last :
      (fuel limit : ℕ) (rows : List Row) (s : Server)
      → Gathered limit
          (rows ++ [])
          (gather client project_id location (suc fuel) limit rows none (some job) s)
  Gathered-last fuel limit rows s = elim (Bool-cases (ltb limit (length rows))) [
    | inl e ↦ Gathered-full fuel limit rows [] none s e
    | inr e ↦
        rw (gather-more fuel limit rows none s e, append-nil rows)
          (unfold more in (rows, none, s, refl, refl, ground arith))
  ]

  none-left : (n : ℕ) → n < 0 → ⊥
  none-left n h = omega arith

  gather-Gathered :
      (fuel limit : ℕ) (ps : List (List Row)) (rows : List Row) (next : Option Text) (s : Server)
      → length ps < fuel
      → Holds ps next s
      → Gathered limit
          (rows ++ concat ps)
          (gather client project_id location fuel limit rows next (some job) s)
  gather-Gathered zero limit ps rows next s h k = absurd (none-left (length ps) h)
  gather-Gathered (suc fuel) limit [] rows none s h k = Gathered-last fuel limit rows s
  gather-Gathered (suc fuel) limit [] rows (some token) s h k = elim k [ ]
  gather-Gathered (suc fuel) limit (p ∷ ps) rows none s h k = elim k [ ]
  gather-Gathered (suc fuel) limit (p ∷ ps) rows (some token) s h (answer, after, e, f, k) =
      let new = or_nothing answer.rows in
      let again = gather client project_id location fuel limit in
      let all : (rows ++ new) ++ concat ps ≡ rows ++ (p ++ concat ps) =
        append_assoc rows new (concat ps) ∙ ap (λ q. rows ++ (q ++ concat ps)) f in
      elim (Bool-cases (ltb limit (length rows))) [
        | inl full ↦ Gathered-full fuel limit rows (p ++ concat ps) (some token) s full
        | inr room ↦
            rw
              (
                gather-more fuel limit rows (some token) s room,
                more-page (λ new. new) again rows token s answer after e,
              )
              (subst
                (λ w. Gathered limit w (again (rows ++ new) answer.page_token (some job) after)) all
                (gather-Gathered fuel limit ps (rows ++ new) answer.page_token after (omega arith)
                  k))
      ]

  -- The loop of `collect`, for what is read of each row alone.
  gather_all-Holds :
      {A : Type 0} (f : Row → A) (fuel : ℕ) (ps : List (List Row)) (rows : List Row)
      (next : Option Text) (s : Server)
      → length ps < fuel
      → Holds ps next s
      → (after : Server) × (gather_all client project_id location fuel
            (map f)
            (map f rows)
            next
            (some job)
            s
          ≡ some (ok (map f (rows ++ concat ps), none), after))
  unfolding gather_all
  gather_all-Holds f zero ps rows next s h k = absurd (none-left (length ps) h)
  gather_all-Holds f (suc fuel) [] rows none s h k = unfold more in (s, rw (append-nil rows) refl)
  gather_all-Holds f (suc fuel) [] rows (some token) s h k = elim k [ ]
  gather_all-Holds f (suc fuel) (p ∷ ps) rows none s h k = elim k [ ]
  gather_all-Holds f (suc fuel) (p ∷ ps) rows (some token) s h (answer, after, e, q, k) =
      let new = or_nothing answer.rows in
      let again = gather_all client project_id location fuel (map f) in
      let (done, r) =
        gather_all-Holds f fuel ps (rows ++ new) answer.page_token after (omega arith) k in
      let all : (rows ++ new) ++ concat ps ≡ rows ++ (p ++ concat ps) =
        append_assoc rows new (concat ps) ∙ ap (λ l. rows ++ (l ++ concat ps)) q in
      (
        done,
        rw (more-page (map f) again (map f rows) token s answer after e) (
            ap (λ l. again l answer.page_token (some job) after) (sym (map-append f rows new))
            ∙ r
            ∙ ap (λ l. some (ok (map f l, none), done)) all),
      )

  -- A job that the server names, runs to its end and keeps the pages of.
  pub record Job (wanted : ℕ) (q : Query) (s : Server) : Type 0 where
    pub first : Answer
    pub begun : Server
    pub asked : query project_id q s ≡ (replied (ok first), begun)
    pub named : first.job_id ≡ some job
    pub turns : ℕ
    pub last : Answer
    pub ended : Server
    pub runs : Runs turns wanted first begun last ended
    pub pages : List (List Row)
    pub holds : Holds pages last.page_token ended

  module _ {wanted : ℕ} {q : Query} {s : Server} (j : Job wanted q s) where
    abbrev pub whole : List Row
    whole = or_nothing j.last.rows ++ concat j.pages

    abbrev pub Enough : ℕ → Type 0
    Enough fuel = (j.turns < fuel) × (length j.pages < fuel)

    start-Job :
        (fuel : ℕ)
        → Enough fuel
        → q.location ≡ location
        → or_a_page q.max_results ≡ wanted
        → start client project_id fuel q s ≡ some (ok (page_of j.last (some job)), j.ended)
    unfolding start
    start-Job fuel (h, _) e f =
        rw (j.asked, j.named, e, f)
          (poll-Runs j.turns fuel wanted j.first j.begun j.last j.ended h j.runs)

-- A total that the server gives, if it gives one.
abbrev pub TotalIs : ℕ → Option ℕ → Type 0
TotalIs n none = Unit
TotalIs n (some total) = total ≡ n

or-over :
    (limit n : ℕ) (total : Option ℕ) (b : Bool)
    → TotalIs n total
    → b ≡ ltb limit n
    → (b || over limit total) ≡ ltb limit n
or-over limit n none b t e = ground (arith, e)
or-over limit n (some total) b t e = ground (arith, e, t)

module _ (client : Client) (project_id location job : Text) (readers : Readers) where
  -- A statement whose job BigQuery runs to its end, through however many answers and pages, is
  -- answered with the first rows of all that the pages hold, as many as the limit, in order, and
  -- says that there are more exactly if there are; and the loops end, given more fuel than there
  -- are answers and pages.
  pub execute-Job :
      (sql : Text) (limit elapsed fuel : ℕ) (s : client.Server)
      (j : Job client project_id location job
        (wanted_rows limit)
        (request sql location (wanted_rows limit))
        s)
      → Enough client project_id location job j fuel
      → TotalIs (length (whole client project_id location job j)) (count j.last.total_rows)
      → (after : client.Server) × (execute client project_id location fuel readers sql limit elapsed
            s
          ≡ some (
            ok (record {
              columns = map column_of (or_nothing j.last.schema);
              rows =
                  map
                    (λ row. cells readers row (or_nothing j.last.schema))
                    (take limit (whole client project_id location job j));
              truncated = ltb limit (length (whole client project_id location job j));
              elapsed_ms = elapsed % 2 ^ 32;
            }),
            after,
          ))
  unfolding execute page_of
  execute-Job sql limit elapsed fuel s j enough total =
      let fields = or_nothing j.last.schema in
      let (rows, next, after, e, t, u) =
        gather-Gathered client project_id location job fuel limit j.pages (or_nothing j.last.rows)
          j.last.page_token j.ended enough.1 j.holds in
      (
        after,
        rw
            (
              start-Job client project_id location job j fuel enough (unfold request in refl)
                  (unfold request in refl),
              e,
            )
            (ap (λ (p : List Row × Bool). some (ok (shown elapsed fields p.0 p.1), after))
              (both rows next t u)),
      )
    where
      shown : ℕ → List Field → List Row → Bool → QueryResult
      shown elapsed fields rows truncated = record {
        columns = map column_of fields;
        rows = map (λ row. cells readers row fields) rows;
        truncated = truncated;
        elapsed_ms = elapsed % 2 ^ 32;
      }

      both :
          (rows : List Row) (next : Option Text)
          → take limit rows ≡ take limit (whole client project_id location job j)
          → (ltb limit (length rows) || is_some next)
            ≡ ltb limit (length (whole client project_id location job j))
          → ◌≡◌ {A = List Row × Bool}
              (
                take limit rows,
                ltb limit (length rows) || is_some next || over limit (count j.last.total_rows),
              )
              (
                take limit (whole client project_id location job j),
                ltb limit (length (whole client project_id location job j)),
              )
      both rows next t u = λ i. (
        t i,
        or-over limit (length (whole client project_id location job j)) (count j.last.total_rows)
            (ltb limit (length rows) || is_some next) total u i,
      )

  -- The catalog's statements are read whole: the rows of every page, in order.
  pub collect-Job :
      (q : Query) (fuel : ℕ) (s : client.Server)
      (j : Job client project_id q.location job page_rows
        (record q { timeout_ms = some hold_ms; max_results = some page_rows })
        s)
      → Enough client project_id q.location job j fuel
      → (after : client.Server) × (collect client project_id fuel readers q s
          ≡ some (
            ok (
                map
                  (λ row. cells readers row (or_nothing j.last.schema))
                  (whole client project_id q.location job j)),
            after,
          ))
  unfolding collect page_of
  collect-Job q fuel s j enough =
      let f : Row → List Value = λ row. cells readers row (or_nothing j.last.schema) in
      let (after, e) =
        gather_all-Holds client project_id q.location job f fuel j.pages (or_nothing j.last.rows)
          j.last.page_token j.ended enough.1 j.holds in
      (after, rw (start-Job client project_id q.location job j fuel enough refl refl, e) refl)
