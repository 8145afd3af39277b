-- ===== src/Shell/Descriptors/Lines.antt =====
-- project1/myshell.c: the descriptors over several lines.
use open_source_project.Prelude.{ℕ, ◌≡◌, ◌≢◌, refl, ap, none, some, List, [], ◌∷◌, ◌++◌, All}
use open_source_project.Shell.Line.{Decision, nothing, quit, pipeline, builtin, external}
use open_source_project.Shell.Descriptors.{Table, Opening, Program, Calls, forked, start_programs}
use open_source_project.Shell.Descriptors.Wiring.{AreFree, piped, start_pipeline_lem}
use open_source_project.Shell.Descriptors.Redirected.{with_files, start_external_lem}

-- The programs of a line, with what they should have as descriptors.
abbrev pub wired : Opening → Table → Calls × Decision → List Program
wired o t (c, pipeline l r) = piped c.fds c.first c.second l r t
wired o t (c, external is_bg r) =
    forked c.first (record { args = r.args; table = with_files o r t })
wired o t (c, builtin b args) = []
wired o t (c, nothing) = []
wired o t (c, quit) = []

abbrev pub all_wired : Opening → Table → List (Calls × Decision) → List Program
all_wired o t [] = []
all_wired o t (x ∷ xs) = wired o t x ++ all_wired o t xs

-- The rounds of the loop for several lines, up to the one that ends it: the shell's descriptors behind them, and the programs.
abbrev pub run_lines : Opening → List (Calls × Decision) → Table → Table × List Program
run_lines o [] t = (t, [])
run_lines o ((c, d) ∷ xs) t =
    let (t1, ps) = start_programs o c d t in let (t2, qs) = run_lines o xs t1 in (t2, ps ++ qs)

-- The descriptors that `pipe` gives are not in use.
abbrev pub GivesFree : Table → Calls × Decision → Type 0
GivesFree t (c, d) = (rd wr : ℕ) → c.fds ≡ some (rd, wr) → AreFree t rd wr

start_programs_lem :
    (o : Opening) (c : Calls) (d : Decision) (t : Table)
    → GivesFree t (c, d)
    → t 0 ≢ none
    → t 1 ≢ none
    → start_programs o c d t ≡ (t, wired o t (c, d))
unfolding start_programs
start_programs_lem o c nothing t v in_use0 in_use1 = refl
start_programs_lem o c quit t v in_use0 in_use1 = refl
start_programs_lem o c (builtin b args) t v in_use0 in_use1 = refl
start_programs_lem o c (external is_bg r) t v in_use0 in_use1 =
    ap (λ ps. (t, ps)) (start_external_lem o c r t in_use0 in_use1)
start_programs_lem o c (pipeline l r) t v in_use0 in_use1 =
    start_pipeline_lem c.fds c.first c.second l r t v in_use0 in_use1

-- Lines at a shell whose standard input and output are open. Behind them the shell has the descriptors
-- that it had before them, whatever pipes they used. The left program of a pipeline has the end to write
-- to as its output, and the right one the end to read from as its input; a single command has the files
-- of its redirections that could be opened as its input and output. All other descriptors of the programs
-- are those of the shell: none keeps another one of a pipe or of a file.
pub run_lines_lem :
    (o : Opening) (xs : List (Calls × Decision)) (t : Table)
    → All (GivesFree t) xs
    → t 0 ≢ none
    → t 1 ≢ none
    → run_lines o xs t ≡ (t, all_wired o t xs)
run_lines_lem o [] t v in_use0 in_use1 = refl
run_lines_lem o ((c, d) ∷ xs) t (v, vs) in_use0 in_use1 =
    rw (start_programs_lem o c d t v in_use0 in_use1, run_lines_lem o xs t vs in_use0 in_use1) refl
