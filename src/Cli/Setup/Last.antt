-- ===== src/Cli/Setup/Last.antt =====
-- The options of the command-line tool: the last one of each kind counts.
use employee_database.Prelude.{
  ℕ, ◌≡◌, refl, sym, ap, ◌∙◌, Bool, true, Option, List, [], ◌∷◌, ◌++◌, All, ◌==◌, if◌then◌else◌,
  ◌⊎◌, inl, inr, ne→==, Bool-cases, append-nil,
}
use employee_database.Memory.{Block}
use employee_database.Startup.{started, exited, Answer}
use employee_database.Cli.Setup.{Options, no_options, set_option, get_options}

-- The argument of the last answer with a character.
abbrev pub last_value : ℕ → List Answer → Option Block → Option Block
last_value c [] start = start
last_value c (a ∷ answers) start = last_value c answers (if a.c == c then a.optarg else start)

abbrev pub seen : ℕ → List Answer → Bool → Bool
seen c [] start = start
seen c (a ∷ answers) start = seen c answers (if a.c == c then true else start)

-- The characters of the options.
abbrev pub IsKnown : ℕ → Type 0
IsKnown c =
    (c ≡ b'f')
    ⊎ ((c ≡ b'n') ⊎ ((c ≡ b'a') ⊎ ((c ≡ b'd') ⊎ ((c ≡ b'u') ⊎ ((c ≡ b'h') ⊎ (c ≡ b'l'))))))

-- What the answers make of the variables.
abbrev pub with_answers : List Answer → Options → Options
with_answers answers o = record {
  fname = last_value b'f' answers o.fname;
  new_file_flag = seen b'n' answers o.new_file_flag;
  arguments = record {
    add_employee_str = last_value b'a' answers o.arguments.add_employee_str;
    update_employee_str = last_value b'u' answers o.arguments.update_employee_str;
    update_employee_hours_str = last_value b'h' answers o.arguments.update_employee_hours_str;
    delete_employee_str = last_value b'd' answers o.arguments.delete_employee_str;
    list_flag = seen b'l' answers o.arguments.list_flag;
  };
}

set_option-with_answers :
    (a : Answer) (o : Options)
    → IsKnown a.c
    → set_option a.c a.optarg o ≡ started (with_answers (a ∷ []) o)
unfolding set_option
set_option-with_answers a o (inl e) = rw e refl
set_option-with_answers a o (inr (inl e)) = rw e refl
set_option-with_answers a o (inr (inr (inl e))) = rw e refl
set_option-with_answers a o (inr (inr (inr (inl e)))) = rw e refl
set_option-with_answers a o (inr (inr (inr (inr (inl e))))) = rw e refl
set_option-with_answers a o (inr (inr (inr (inr (inr (inl e)))))) = rw e refl
set_option-with_answers a o (inr (inr (inr (inr (inr (inr e)))))) = rw e refl

get_options-with_answers :
    (answers back : List Answer) (o : Options)
    → All (λ a. IsKnown a.c) answers
    → get_options (answers ++ back) o ≡ get_options back (with_answers answers o)
unfolding get_options
get_options-with_answers [] back o h = refl
get_options-with_answers (a ∷ answers) back o (k, h) =
    rw (set_option-with_answers a o k)
      (get_options-with_answers answers back (with_answers (a ∷ []) o) h)

set_option-exited :
    (c : ℕ) (optarg : Option Block) (o : Options)
    → (IsKnown c → ⊥)
    → set_option c optarg o ≡ exited (if c == b'?' then 0 else 1)
unfolding set_option
set_option-exited c optarg o n =
    rw
      (
        ne→== c b'f' (λ e. n (inl e)),
        ne→== c b'n' (λ e. n (inr (inl e))),
        ne→== c b'a' (λ e. n (inr (inr (inl e)))),
        ne→== c b'd' (λ e. n (inr (inr (inr (inl e))))),
        ne→== c b'u' (λ e. n (inr (inr (inr (inr (inl e)))))),
        ne→== c b'h' (λ e. n (inr (inr (inr (inr (inr (inl e))))))),
        ne→== c b'l' (λ e. n (inr (inr (inr (inr (inr (inr e))))))),
      )
      (elim (Bool-cases (c == b'?')) [ inl y ↦ rw y refl | inr d ↦ rw d refl ])

-- If all answers of getopt are options of the tool, its loop sets each variable to the argument of
-- the last answer for it, and a flag exactly if it is there, whatever the order; and with an answer
-- behind them that is none of the options it exits, with the status 0 for `?` and 1 otherwise,
-- whatever follows.
pub get_options-last :
    (answers : List Answer)
    → All (λ a. IsKnown a.c) answers
    → (get_options answers no_options ≡ started (with_answers answers no_options))
      × ((a : Answer) (back : List Answer)
          → (IsKnown a.c → ⊥)
          → get_options (answers ++ (a ∷ back)) no_options ≡ exited (if a.c == b'?' then 0 else 1))
unfolding get_options
get_options-last answers h = (
  ap (λ l. get_options l no_options) (sym (append-nil answers))
      ∙ get_options-with_answers answers [] no_options h,
  λ a back n.
      get_options-with_answers answers (a ∷ back) no_options h
      ∙ rw (set_option-exited a.c a.optarg (with_answers answers no_options) n) refl,
)
