-- ===== src/StandardVersion/Printer.antt =====
-- The texts of a version: `string_pre_release`, `string_version`, `string_snapshot`,
-- `string_project`, `string_project_id` and `string` of libbutl/standard-version.cxx.
use libbutl.Prelude.{
  ℕ, ◌-◌, ◌/◌, ◌%◌, Bool, true, false, not, ◌&&◌, ◌||◌, Option, none, some, [], ◌∷◌, ◌++◌, Bytes,
  codes, is_empty, ltb, ◌==◌, if◌then◌else◌,
}
use libbutl.Number.{to_string}
use libbutl.StandardVersion.{
  StandardVersion, latest_sn, empty, stub, snapshot, major, minor, patch, alpha, beta, earliest,
}

abbrev pub is_some : Option ℕ → Bool
is_some none = false
is_some (some _) = true

unfoldable pub string_pre_release : StandardVersion → Bytes
string_pre_release v =
    if (is_some (alpha v) && not (earliest v)) || is_some (beta v)
    then (let ab = v.version / 10 % 1000 in
        if ltb ab 500 then b'a' ∷ b'.' ∷ to_string ab else b'b' ∷ b'.' ∷ to_string (ab - 500))
    else []

unfoldable pub string_version : StandardVersion → Bytes
string_version v =
    if empty v
    then []
    else if stub v
    then codes "0"
    else to_string (major v)
      ++ (b'.'
          ∷ (to_string (minor v)
              ++ (b'.'
                  ∷ (to_string (patch v)
                      ++ (if is_some (alpha v) || is_some (beta v)
                          then b'-'
                            ∷ (string_pre_release v ++ (if snapshot v then b'.' ∷ [] else []))
                          else [])))))

unfoldable pub string_snapshot : StandardVersion → Bytes
string_snapshot v =
    if snapshot v
    then (if v.snapshot_sn == latest_sn then codes "z" else to_string v.snapshot_sn)
      ++ (if not (is_empty v.snapshot_id) then b'.' ∷ v.snapshot_id else [])
    else []

unfoldable pub string_project : StandardVersion → Bool → Bytes
string_project v rev =
    string_version v
    ++ ((if snapshot v then string_snapshot v else [])
        ++ (if rev && not (v.revision == 0) then b'+' ∷ to_string v.revision else []))

unfoldable pub string_project_id : StandardVersion → Bytes
string_project_id v =
    string_version v
    ++ (if snapshot v
        then (if v.snapshot_sn == latest_sn
            then codes "z"
            else if is_empty v.snapshot_id
            then to_string v.snapshot_sn
            else v.snapshot_id)
        else [])

-- `string`.
unfoldable pub print : StandardVersion → Bytes
print v =
    (if not (v.epoch == 1) && not (stub v) then b'+' ∷ (to_string v.epoch ++ (b'-' ∷ [])) else [])
    ++ string_project v true
