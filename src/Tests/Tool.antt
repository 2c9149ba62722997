-- ===== src/Tests/Tool.antt =====
-- A run of the command-line tool on concrete arguments.
use employee_database.Prelude.{
  ◌≡◌, refl, true, false, none, some, List, [], ◌∷◌, ◌++◌, All, inl, inr, arith, ◌==◌,
  if◌then◌else◌,
}
use employee_database.Memory.{ok, fault, Block}
use employee_database.Startup.{started, exited, Answer, Storage}
use employee_database.Memory.Text.{c_string, text_eq}
use employee_database.Employee.Directory.{set_hours, swap_out, names}
use employee_database.Serialize.Reopen.{image}
use employee_database.Cli.{Arguments}
use employee_database.Cli.Edited.{Asks, edited}
use employee_database.Cli.Setup.{no_options, get_options, main}
use employee_database.Cli.Setup.Last.{IsKnown, with_answers, get_options-last}
use employee_database.Cli.Setup.Whole.{MainEnds, main-MainEnds}
use employee_database.Tests.Data.{ada, bob, ample}
use employee_database.Tests.Requests.{whole_request, one-IsDirectory, two-IsDirectory}
use employee_database.Tests.Sessions.{bob_line, parse_bob_line, parse_seven}

abbrev tool_arguments : Arguments
tool_arguments = record {
  add_employee_str = some bob_line;
  update_employee_str = some (c_string (b'a' ∷ b'd' ∷ b'a' ∷ []));
  update_employee_hours_str = some (c_string (b'7' ∷ []));
  delete_employee_str = some (c_string (b'a' ∷ b'd' ∷ b'a' ∷ []));
  list_flag = true;
}

tool_arguments-Asks : Asks tool_arguments whole_request
tool_arguments-Asks = record {
  add = (
    record { text = omega arith; short = omega arith },
    record { text = omega arith; short = omega arith },
    parse_bob_line,
  );
  update = (refl, record { text = omega arith; short = omega arith }, parse_seven);
  delete = (refl, record { text = omega arith; short = omega arith });
  list = refl;
  hours = omega arith;
}

-- `-f db -a bob,yz,7 -u ada -h 7 -d ada -l`, with a first `-d` that does not count.
abbrev tool_answers : List Answer
tool_answers =
    record { c = b'd'; optarg = some bob_line }
    ∷ record { c = b'f'; optarg = some (c_string (b'd' ∷ b'b' ∷ [])) }
    ∷ record { c = b'a'; optarg = some bob_line }
    ∷ record { c = b'u'; optarg = some (c_string (b'a' ∷ b'd' ∷ b'a' ∷ [])) }
    ∷ record { c = b'h'; optarg = some (c_string (b'7' ∷ [])) }
    ∷ record { c = b'd'; optarg = some (c_string (b'a' ∷ b'd' ∷ b'a' ∷ [])) }
    ∷ record { c = b'l'; optarg = none }
    ∷ []

tool_answers-IsKnown : All (λ a. IsKnown a.c) tool_answers
tool_answers-IsKnown = (
  inr (inr (inr (inl refl))),
  (
    inl refl,
    (
      inr (inr (inl refl)),
      (
        inr (inr (inr (inr (inl refl)))),
        (
          inr (inr (inr (inr (inr (inl refl))))),
          (inr (inr (inr (inl refl))), (inr (inr (inr (inr (inr (inr refl))))), tt)),
        ),
      ),
    ),
  ),
)

get_options-last_example :
    (get_options tool_answers no_options ≡ started (with_answers tool_answers no_options))
    × ((a : Answer) (back : List Answer)
        → (IsKnown a.c → ⊥)
        → get_options (tool_answers ++ (a ∷ back)) no_options
          ≡ exited (if a.c == b'?' then 0 else 1))
get_options-last_example = get_options-last tool_answers tool_answers-IsKnown

-- Every name is that of the file with the directory.
abbrev with_file : Block → Storage
with_file name = record { existing = some (image (ada ∷ [])); granted = true; script = [] }

main-MainEnds_example :
    MainEnds true (edited whole_request (ada ∷ [])) (main ample [] with_file tool_answers)
main-MainEnds_example =
    main-MainEnds ample [] with_file tool_answers (with_answers tool_answers no_options)
      (c_string (b'd' ∷ b'b' ∷ [])) whole_request (ada ∷ []) (λ n. refl)
      (get_options-last tool_answers tool_answers-IsKnown).0 refl refl tool_arguments-Asks
      one-IsDirectory two-IsDirectory

-- Only bob is left.
edited_whole : edited whole_request (ada ∷ []) ≡ ok (bob ∷ [])
unfolding set_hours swap_out text_eq names
edited_whole = refl

-- `-a bob,yz,7 -d bob` frees parts of the command line.
edited_added :
    edited
      (record { add = some bob; update = none; delete = some bob.name; list = false })
      (ada ∷ [])
    ≡ fault
unfolding text_eq names
edited_added = refl
