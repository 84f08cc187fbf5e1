-- ===== src/Scheduler/Uri.antt =====
-- uri_to_hostname and name_to_storage_name of serverless_system_view.cc. Where `find` gives npos,
-- an end of the range lies outside the text, which is undefined.
use programmable_caching.Base.{String, Option, none, some}
use programmable_caching.Base.Text.{until_colon, after_colon}
use programmable_caching.Base.Exec.{Outcome, returns, faults, and_then, undefined}

abbrev pub or_undefined : Option String → Outcome String
or_undefined none = faults undefined
or_undefined (some s) = returns s

unfoldable pub uri_to_hostname : String → Outcome String
uri_to_hostname uri = or_undefined (until_colon uri)

unfoldable pub name_to_storage_name : String → Outcome String
name_to_storage_name name =
    and_then (or_undefined (after_colon name)) λ sliced. or_undefined (until_colon sliced)
