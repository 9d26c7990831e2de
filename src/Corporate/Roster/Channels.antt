-- ===== src/Corporate/Roster/Channels.antt =====
-- What `parseRoster` (src/corporate/roster-csv.ts) accepts: every row of the file is accepted or
-- skipped, and no two accepted rows share an email or a phone.
use qift_platform.Prelude.{
  ℕ, ◌+◌, ◌≤◌, false, List, [], ◌∷◌, ◌++◌, ◌≡◌, refl, sym, ap, subst, ◌∙◌, arith, ltb, any, length,
  length-append,
}
use qift_platform.Prelude.Outcome.{Result, ok, err, elim_ok, refused_not}
use qift_platform.Corporate.Text.{Text}
use qift_platform.Corporate.Csv.{parse_csv}
use qift_platform.Corporate.Header.{RosterField, Unicode, HeaderPlan, HeaderRejection, plan_headers}
use qift_platform.Corporate.Roster.{
  RosterRow, Roster, SkipReason, Channel, keys, is_seen, raw_value, read_email, read_phone, accept,
  read_row, put, channels_after, rows_loop, roster_of, roster_table, parse_roster, max_csv_bytes,
  max_roster_rows, file_too_large, too_many_rows, name_missing, duplicate_in_file,
}

-- The keys of a row.
abbrev pub keys_of : RosterRow → List Channel
keys_of row = keys row.email row.phone

-- The row has a channel, and none that was seen.
pub record Fresh (channels : List Channel) (row : RosterRow) : Type 0 where
  pub reachable : 1 ≤ length (keys_of row)
  pub fresh : any (is_seen channels) (keys_of row) ≡ false

accept-Fresh :
    (u : Unicode) (mine channels : List Channel) (row out : RosterRow)
    → keys_of row ≡ mine
    → accept u mine channels row ≡ ok out
    → Fresh channels out
unfolding accept
accept-Fresh u [] channels row out own h = cc
accept-Fresh u (k ∷ more) channels row out own h =
    let (unseen, done) =
      refused_not (any (is_seen channels) (k ∷ more)) duplicate_in_file (ok row) h in
    let same : row ≡ out = cc in
    subst (Fresh channels) same (record {
      reachable = subst (λ ks. 1 ≤ length ks) (sym own) (omega arith);
      fresh = subst (λ ks. any (is_seen channels) ks ≡ false) (sym own) unseen;
    })

read_row-Fresh :
    (u : Unicode) (mapping : List (ℕ × RosterField)) (channels : List Channel) (line : ℕ)
    (cells : List Text) (out : RosterRow)
    → read_row u mapping channels line cells ≡ ok out
    → Fresh channels out
unfolding read_row
read_row-Fresh u mapping channels line cells out h =
    let (_, h1) = refused_not _ name_missing _ h in
    let (email, _, h2) = elim_ok (read_email u (raw_value mapping cells RosterField.email)) _ h1 in
    let (phone, _, h3) = elim_ok (read_phone u (raw_value mapping cells RosterField.phone)) _ h2 in
    accept-Fresh u (keys email phone) channels _ out refl h3

-- Each row has an email or a phone, and shares none with the channels that were seen or with an earlier
-- row.
pub AllFresh : List Channel → List RosterRow → Type 0
AllFresh channels [] = Unit {0}
AllFresh channels (row ∷ rest) = Fresh channels row × AllFresh (channels ++ keys_of row) rest

seen_after : List Channel → List RosterRow → List Channel
seen_after channels [] = channels
seen_after channels (row ∷ rest) = seen_after (channels ++ keys_of row) rest

seen_after-append :
    (channels : List Channel) (rows : List RosterRow) (row : RosterRow)
    → seen_after channels (rows ++ row ∷ []) ≡ seen_after channels rows ++ keys_of row
unfolding seen_after
seen_after-append channels [] row = refl
seen_after-append channels (x ∷ rows) row = seen_after-append (channels ++ keys_of x) rows row

AllFresh-append :
    (channels : List Channel) (rows : List RosterRow) (row : RosterRow)
    → AllFresh channels rows
    → Fresh (seen_after channels rows) row
    → AllFresh channels (rows ++ row ∷ [])
unfolding AllFresh seen_after
AllFresh-append channels [] row h k = (k, tt)
AllFresh-append channels (x ∷ rows) row h k =
    (h.0, AllFresh-append (channels ++ keys_of x) rows row h.1 k)

-- The state of the loop: what it has accepted is fresh, and its channels are theirs.
record Sound (channels : List Channel) (r : Roster) : Type 0 where
  all_fresh : AllFresh [] r.rows
  seen : channels ≡ seen_after [] r.rows

put-Sound :
    (u : Unicode) (channels : List Channel) (line : ℕ) (outcome : Result SkipReason RosterRow)
    (r : Roster)
    → Sound channels r
    → ((row : RosterRow) → outcome ≡ ok row → Fresh channels row)
    → Sound (channels_after u outcome channels) (put u line outcome r)
      × (length (put u line outcome r).rows + length (put u line outcome r).skipped
          ≡ length r.rows + length r.skipped + 1)
unfolding put
put-Sound u channels line (ok row) r h f = (
  record {
    all_fresh =
        AllFresh-append [] r.rows row h.all_fresh
          (subst (λ (c : List Channel). Fresh c row) h.seen (f row refl));
    seen = ap (λ c. c ++ keys_of row) h.seen ∙ sym (seen_after-append [] r.rows row);
  },
  ground (arith, length-append r.rows (row ∷ [])),
)
put-Sound u channels line (err reason) r h f = (
  record { all_fresh = h.all_fresh; seen = h.seen },
  ground (arith, length-append r.skipped ((line, reason) ∷ [])),
)

rows_loop-Sound :
    (u : Unicode) (mapping : List (ℕ × RosterField)) (channels : List Channel) (line : ℕ)
    (table : List (List Text)) (r : Roster)
    → Sound channels r
    → AllFresh [] (rows_loop u mapping channels line table r).rows
      × (length (rows_loop u mapping channels line table r).rows
            + length (rows_loop u mapping channels line table r).skipped
          ≡ length r.rows + length r.skipped + length table)
unfolding rows_loop
rows_loop-Sound u mapping channels line [] r h = (h.all_fresh, ground arith)
rows_loop-Sound u mapping channels line (cells ∷ rest) r h =
    let outcome = read_row u mapping channels line cells in
    let (sound, one) =
      put-Sound u channels line outcome r h
        (λ row made. read_row-Fresh u mapping channels line cells row made) in
    let (fresh, total) =
      rows_loop-Sound u mapping (channels_after u outcome channels) (line + 1) rest
        (put u line outcome r) sound in
    (fresh, total ∙ omega (arith, one))

-- Every row after the header is accepted or skipped, and they are at most as many as the cap.
pub Complete : Roster → List (List Text) → Type 0
Complete roster table =
    (length roster.rows + length roster.skipped + 1 ≡ length table)
    × (length roster.rows + length roster.skipped ≤ max_roster_rows)

started :
    {ignored : List Text} → Sound [] (record { rows = []; skipped = []; ignored_columns = ignored })
unfolding AllFresh seen_after
started = record { all_fresh = tt; seen = refl }

roster_of-Sound :
    (u : Unicode) (rest : List (List Text)) (headers : Result HeaderRejection HeaderPlan)
    (roster : Roster)
    → roster_of u rest headers ≡ ok roster
    → AllFresh [] roster.rows × (length roster.rows + length roster.skipped ≡ length rest)
unfolding roster_of
roster_of-Sound u rest (err e) roster h = cc
roster_of-Sound u rest (ok plan) roster h =
    let start : Roster = record { rows = []; skipped = []; ignored_columns = plan.ignored } in
    let same : rows_loop u plan.mapping [] 2 rest start ≡ roster = cc in
    subst (λ (q : Roster). AllFresh [] q.rows × (length q.rows + length q.skipped ≡ length rest))
      same
      (let (fresh, total) = rows_loop-Sound u plan.mapping [] 2 rest start started in
        (fresh, omega (arith, total)))

roster_table-Sound :
    (u : Unicode) (table : List (List Text)) (roster : Roster)
    → roster_table u table ≡ ok roster
    → AllFresh [] roster.rows × Complete roster table
unfolding roster_table Complete
roster_table-Sound u [] roster h = cc
roster_table-Sound u (header ∷ []) roster h = cc
roster_table-Sound u (header ∷ (first ∷ rest)) roster h =
    let (capped, read) =
      refused_not (ltb max_roster_rows (length (first ∷ rest))) too_many_rows _ h in
    let (fresh, total) = roster_of-Sound u (first ∷ rest) (plan_headers u header) roster read in
    (fresh, (omega (arith, total), ground (arith, total, capped)))

-- In a roster that was read from a file, each accepted row has an email or a phone and shares none
-- with an earlier row; every row of the parsed file but the header is accepted or skipped; and there
-- are at most 2000 of them.
pub parse_roster-AllFresh :
    (u : Unicode) (text : Text) (roster : Roster)
    → parse_roster u text ≡ ok roster
    → AllFresh [] roster.rows × Complete roster (parse_csv text)
unfolding parse_roster
parse_roster-AllFresh u text roster h =
    roster_table-Sound u (parse_csv text) roster
      (refused_not (ltb max_csv_bytes (u.byte_length text)) file_too_large _ h).1
