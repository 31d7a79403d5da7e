-- ===== src/Runner/Prompts.antt =====
-- execqueue/runner/prompt_templates.py: the prompts that are sent for a task. The text of a number and
-- `str.title` are arguments. The context comes from `to_dict`, so every key is there, and a value that
-- is missing is written as `None`.
use Prim.Native.String.{◌++◌ as ◌+++◌}
use exec_queue.Common.{ℕ, String, Option, none, some}
use exec_queue.Orchestrator.Classification.{read_only, write}
use exec_queue.Orchestrator.Context.{PreparedExecutionContext}

-- An optional text in a template.
abbrev or_none_text : Option String → String
or_none_text none = "None"
or_none_text (some text) = text

module _ (decimal : ℕ → String) (title : String → String) where
  abbrev pub number_text : PreparedExecutionContext → String
  number_text c = elim c.task_number [ none ↦ "None" | some n ↦ decimal n ]

  unfoldable pub build_readonly_prompt : PreparedExecutionContext → String → String
  build_readonly_prompt c task_type =
      "## Task "
      +++ number_text c
      +++ " - Read-Only "
      +++ title task_type
      +++ "\n\n### Ziel\nFuhre eine "
      +++ task_type
      +++ " Aufgabe durch, OHNE den Codebase zu andern.\n\n### Scope\n- Repository: "
      +++ or_none_text c.base_repo_path
      +++ "\n- Modus: READ-ONLY (keine Schreiboperationen)\n\n### Wichtige Regeln\n"
      +++ "1. **KEINE Dateien andern** - Dies ist eine reine Analyse/Auswertungs-Aufgabe\n"
      +++ "2. **KEINE Git-Commits** - Keine Änderungen vornehmen\n"
      +++ "3. **KEINE Worktree-Operationen** - Nutze den bestehenden Zustand\n"
      +++ "4. Ausgabe ist rein informierend (Report, Analyse, Planung)\n\n"
      +++ "### Erwartetes Ergebnis\n- Detaillierte Dokumentation der Analyse/Ergebnisse\n"
      +++ "- Keine Code-Änderungen\n- Keine Commit-Historie-Änderungen\n\n"
      +++ "### Akzeptanzkriterien\n- Alle Analyse-Schritte wurden durchgefuhrt\n"
      +++ "- Ergebnisse sind nachvollziehbar dokumentiert\n- Keine Dateien wurden geändert\n"

  unfoldable pub build_write_prompt : PreparedExecutionContext → String → String
  build_write_prompt c task_type =
      "## Task "
      +++ number_text c
      +++ " - Write "
      +++ title task_type
      +++ "\n\n### Ziel\nFuhre die "
      +++ task_type
      +++ " Aufgabe durch und erstelle einen nachvollziehbaren Commit.\n\n### Scope\n"
      +++ "- Repository: "
      +++ or_none_text c.worktree_path
      +++ "\n- Branch: "
      +++ or_none_text c.branch_name
      +++ "\n- Start-Commit: "
      +++ or_none_text c.commit_sha_before
      +++ "\n- Modus: WRITE (Schreiboperationen erlaubt)\n\n### Wichtige Regeln\n"
      +++ "1. **Nur im Worktree andern** - Alle Änderungen mussen in "
      +++ or_none_text c.worktree_path
      +++ " erfolgen\n"
      +++ "2. **Keine destruktiven Git-Operationen** - Kein force-push, kein hard-reset\n"
      +++ "3. **Genau EIN Commit** - Sofern nicht anders gefordert:\n"
      +++ "   - Alle Änderungen in einem Commit zusammenfassen\n"
      +++ "   - Klare, aussagekräftige Commit-Message\n   - Commit muss nachvollziehbar sein\n"
      +++ "4. **Validierung vor Commit** - Fuhre aus:\n"
      +++ "   - `git status` - Prüfe auf ungewollte Änderungen\n"
      +++ "   - `git diff` - Review der Änderungen\n"
      +++ "   - Test-Suite ausfuhren (falls vorhanden)\n\n### Commit-Erwartung\n- Branch: "
      +++ or_none_text c.branch_name
      +++ "\n- Alle Änderungen im Worktree "
      +++ or_none_text c.worktree_path
      +++ "\n- Ein sauberer Commit mit aussagekräftiger Message\n"
      +++ "- Keine destruktiven Operationen\n\n### Akzeptanzkriterien\n"
      +++ "- Alle geforderten Änderungen wurden durchgefuhrt\n"
      +++ "- Tests bestehen (falls vorhanden)\n- Ein sauberer Commit wurde erstellt\n"
      +++ "- Keine ungewollten Änderungen\n- Keine destruktiven Git-Operationen\n"

  -- `build_prompt`; `none` is the exception of `title` on a missing type. The keyword `task_prompt` of
  -- the dictionary is the last argument.
  unfoldable pub build_prompt : PreparedExecutionContext → String → Option String
  unfolding build_readonly_prompt build_write_prompt
  build_prompt c task_prompt = elim c.task_type [
    | none ↦ none
    | some task_type ↦ elim c.runner_mode [
      | read_only ↦ some (build_readonly_prompt c task_type)
      | write ↦ some (build_write_prompt c task_type)
    ]
  ]
