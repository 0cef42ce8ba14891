-- ===== src/Shell/Command.antt =====
-- The command line of shell/shell.c: `readline`, `cmd_parse`, and the choice of the command in `my_shell`.
-- What is shown on the screen is left out. `argv` is the list of the words that its pointers start.
use zy_os.Base.{
  ℕ, zero, suc, ◌+◌, ◌-◌, Bool, true, false, ◌||◌, Option, none, some, List, [], ◌∷◌, ◌++◌, ◌==◌,
  ltb, if◌then◌else◌, length, update, Run, ok, assert, ◌>>◌,
}
use zy_os.Shell.{Str, skip_char, take_word, drop_word, is_empty, same_upto}

abbrev pub space : ℕ
space = 32

abbrev pub newline : ℕ
newline = 10

abbrev pub carriage_return : ℕ
carriage_return = 13

abbrev pub backspace : ℕ
backspace = 8

-- `'l' - 'a'` and `'u' - 'a'`
abbrev pub ctrl_l : ℕ
ctrl_l = 11

abbrev pub ctrl_u : ℕ
ctrl_u = 20

abbrev pub max_arg_nr : ℕ
max_arg_nr = 16

-- `while (buf != pos) { *(pos--) = 0; }`, with the number of the rounds.
unfoldable pub wipe : (pos : ℕ) → (ℕ → ℕ) → ℕ → ℕ
wipe zero buf = buf
wipe (suc pos) buf = wipe pos (update buf (suc pos) 0)

-- What a call leaves: the buffer, whether the line is ended, and what is not read yet.
pub record Line : Type 0 where
  pub buf : ℕ → ℕ
  pub ended : Bool
  pub unread : List ℕ

-- One character that ends no line, stored at `pos`: the buffer and the position.
unfoldable pub read_char : (buf : ℕ → ℕ) (pos : ℕ) (c : ℕ) → (ℕ → ℕ) × ℕ
read_char buf pos c =
    let buf' = update buf pos c in
    if c == backspace
    then (if buf' 0 == backspace then (buf', pos) else (buf', (pos - 1)))
    else if c == ctrl_l
    then (update buf' pos 0, pos)
    else if c == ctrl_u
    then (wipe pos buf', 0)
    else (buf', pos + 1)

-- The characters that `read` gives one by one, and -1 behind the last.
unfoldable pub read_chars : (count : ℕ) → List ℕ → (buf : ℕ → ℕ) (pos : ℕ) → Line
read_chars count [] buf pos = record { buf = buf; ended = false; unread = [] }
read_chars count (c ∷ input) buf pos =
    let (buf', pos') = read_char buf pos c in
    let rest = read_chars count input buf' pos' in
    let full : Line = record { buf = update buf pos c; ended = false; unread = input } in
    let line : Line = record { buf = update buf pos 0; ended = true; unread = input } in
    if ltb pos count then (if c == newline || c == carriage_return then line else rest) else full

unfoldable pub readline : (count : ℕ) → List ℕ → (buf : ℕ → ℕ) → Run Line
readline count input buf = assert (ltb 0 count) >> ok (read_chars count input buf 0)

-- The words so far; the inner `none` is -1, and the outer one means that the fuel ran out.
abbrev pub behind_token : Str → Str
behind_token [] = []
behind_token (c ∷ s) = s

unfoldable pub cmd_loop :
    (fuel : ℕ) (token : ℕ) (next : Str) (argv : List Str) → Option (Option (List Str))
cmd_loop zero token next argv = none
cmd_loop (suc fuel) token next argv =
    let s = skip_char token next in
    let argv' = argv ++ (take_word token s ∷ []) in
    let rest = cmd_loop fuel token (behind_token (drop_word token s)) argv' in
    if is_empty s
    then some (some argv)
    else if ltb max_arg_nr (length argv)
    then some none
    else rest

unfoldable pub cmd_parse : (cmd_str : Str) (token : ℕ) → Option (Option (List Str))
cmd_parse cmd_str token = cmd_loop (length cmd_str + 1) token cmd_str []

-- The commands of `my_shell`, tested in this order.
pub data Command : Type 0 where
  ls : Command
  cd : Command
  pwd : Command
  ps : Command
  clear : Command
  mkdir : Command
  rmdir : Command
  rm : Command
  external : Command

-- The names, in ASCII.
abbrev pub name_of : Command → Str
name_of Command.ls = 108 ∷ 115 ∷ []
name_of Command.cd = 99 ∷ 100 ∷ []
name_of Command.pwd = 112 ∷ 119 ∷ 100 ∷ []
name_of Command.ps = 112 ∷ 115 ∷ []
name_of Command.clear = 99 ∷ 108 ∷ 101 ∷ 97 ∷ 114 ∷ []
name_of Command.mkdir = 109 ∷ 107 ∷ 100 ∷ 105 ∷ 114 ∷ []
name_of Command.rmdir = 114 ∷ 109 ∷ 100 ∷ 105 ∷ 114 ∷ []
name_of Command.rm = 114 ∷ 109 ∷ []
name_of Command.external = []

unfoldable pub is : Command → Str → Bool
is c word = same_upto (length (name_of c)) (name_of c) word

unfoldable pub command : Str → Command
command word =
    if is Command.ls word
    then Command.ls
    else if is Command.cd word
    then Command.cd
    else if is Command.pwd word
    then Command.pwd
    else if is Command.ps word
    then Command.ps
    else if is Command.clear word
    then Command.clear
    else if is Command.mkdir word
    then Command.mkdir
    else if is Command.rmdir word
    then Command.rmdir
    else if is Command.rm word
    then Command.rm
    else Command.external
