-- ===== src/Extension/Examples.antt =====
-- A page of a job board, and the session that was granted for it.
use octopus_job_search.Base.{true, Option, none, some, [], ◌∷◌}
use octopus_job_search.Base.Text.{Text, codes}
use octopus_job_search.FillPlanner.Forms.{normalize_question_key, standard}
use octopus_job_search.FillPlanner.Values.{boolean, string, array, object, nil, cons, end, entry}
use octopus_job_search.FillPlanner.Plan
use octopus_job_search.Extension.Session.{Grant, InspectedPage, Options, decide}
use octopus_job_search.Extension.Guarded.{IsGuarded, decide-IsGuarded}

-- Every page is at one origin.
abbrev origin_of : Text → Option Text
origin_of url = some (codes "https://jobs.example")

abbrev same : Text → Text
same t = t

abbrev key_for : Text → Text
key_for = normalize_question_key same

abbrev page : InspectedPage
page = record {
  url = codes "https://jobs.example/1";
  identity = object (entry (codes "company") (string (codes "acme")) end);
  fields = array (
      cons
        (object (
          entry (codes "label") (string (codes "email")) (
            entry (codes "kind") (string (codes "email"))
              (entry (codes "required") (boolean true) end))))
        nil);
}

abbrev grant : Grant
grant = record {
  origin = codes "https://jobs.example";
  company = codes "acme";
  title = codes "engineer";
  fields =
      record {
        question_key = codes "email";
        label = none;
        answer = Plan.string (codes "ada@example.org");
        required = true;
        sensitivity = standard;
      }
      ∷ [];
  resume_file_id = none;
}

abbrev options : Options
options = record { fingerprint = some (codes "v1:0"); adapter = none; adapter_version = none }

decide-IsGuarded_example :
    IsGuarded origin_of same key_for grant page (decide origin_of same key_for grant page options)
decide-IsGuarded_example = decide-IsGuarded origin_of same key_for grant page options
