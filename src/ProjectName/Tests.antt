-- ===== src/ProjectName/Tests.antt =====
-- Runs of libbutl/project-name.cxx.
use libbutl.Prelude.{◌≡◌, ◌↔◌, refl, none, some, [], codes, ok, err, if◌then◌else◌}
use libbutl.ProjectName.{
  project_name, is_one_of, check_first, check_rest, base, extension, same_ignoring_case,
  IsProjectName, project_name-IsProjectName, base-extension, find_extension, scan_extension,
}

libbutl_name : project_name (codes "libbutl") ≡ ok (codes "libbutl")
unfolding project_name is_one_of check_first check_rest
libbutl_name = refl

reserved : project_name (codes "nul") ≡ err "illegal name"
unfolding project_name is_one_of
reserved = refl

bad_end :
    project_name (codes "lib-") ≡ err "illegal last character (must be alphabetic, digit, or plus)"
unfolding project_name is_one_of check_first check_rest
bad_end = refl

hidden : extension (codes ".txt") ≡ []
unfolding extension find_extension scan_extension
hidden = refl

project_name-IsProjectName_example :
    (project_name (codes "libbutl") ≡ ok (codes "libbutl"))
    ↔ ((codes "libbutl" ≡ codes "libbutl") × IsProjectName (codes "libbutl"))
project_name-IsProjectName_example = project_name-IsProjectName (codes "libbutl") (codes "libbutl")

base-extension_example :
    (extension (codes "foo.bash") ≡ codes "bash")
    × (base none (codes "foo.bash") ≡ codes "foo")
    × (base (some (codes "Bash")) (codes "foo.bash") ≡ (
        if same_ignoring_case (codes "bash") (codes "Bash") then codes "foo" else codes "foo.bash"))
base-extension_example =
    base-extension (codes "foo") (codes "bash") (codes "Bash") refl refl refl refl
