-- ===== src/Logging/Output/Colors.antt =====
-- Which handlers write the colours.
use flow_proxy.Base.{
  ℕ, zero, suc, ◌≡◌, refl, inl, inr, Bool, true, false, ◌&&◌, Bool-cases, some, List, [], ◌∷◌, ◌++◌,
  Text, length, get_elem?, leb, if_true, if◌then◌else◌, arith,
}
use flow_proxy.Logging.Settings.{Python, LogConfig}
use flow_proxy.Logging.Output.{
  Entry, colored, Formatter, colored_formatter, plain_formatter, format, Sink,
  configure_root_logger, create_console_handler, create_file_handler, handle, call_handlers,
}

abbrev has_colors : Formatter → Bool
has_colors (colored_formatter fmt dates) = true
has_colors (plain_formatter fmt dates) = false

-- The handler takes records of that level and colours them.
abbrev colors : ℕ → Sink → Bool
colors levelno h = leb h.level levelno && has_colors h.formatter

-- How many of the handlers colour a record of that level.
unfoldable pub colorings : ℕ → List Sink → ℕ
colorings levelno [] = 0
colorings levelno (h ∷ hs) =
    let rest = colorings levelno hs in if colors levelno h then suc rest else rest

unfoldable pub colored_times : ℕ → Entry → Entry
colored_times zero e = e
colored_times (suc n) e = colored_times n (colored e)

colored_levelno : (e : Entry) → (colored e).levelno ≡ e.levelno
unfolding colored
colored_levelno e = refl

module _ (line : Text → Text → Entry → Text) where
  format-1 :
      (f : Formatter) (e : Entry) → (format line f e).1 ≡ (if has_colors f then colored e else e)
  unfolding format
  format-1 (colored_formatter fmt dates) e = refl
  format-1 (plain_formatter fmt dates) e = refl

  -- The record that the next handler is given.
  handle-1 :
      (h : Sink) (e : Entry) → (handle line h e).1 ≡ (if colors e.levelno h then colored e else e)
  unfolding handle
  handle-1 h e = elim (Bool-cases (leb h.level e.levelno)) [
    | inl t ↦ rw t (format-1 h.formatter e)
    | inr f ↦ rw f refl
  ]

  -- A handler that takes a record writes it as often coloured as there are handlers before it that
  -- take it and have a coloured formatter, whatever its own formatter is.
  pub call_handlers-colorings :
      (before : List Sink) (h : Sink) (after : List Sink) (e : Entry)
      → leb h.level e.levelno ≡ true
      → get_elem? (call_handlers line (before ++ h ∷ after) e) (length before)
        ≡ some (some (format line h.formatter (colored_times (colorings e.levelno before) e)).0)
  unfolding call_handlers colorings colored_times
  call_handlers-colorings [] h after e t = unfold handle in rw t refl
  call_handlers-colorings (b ∷ bs) h after e t = elim (Bool-cases (colors e.levelno b)) [
    | inl c ↦ rw (handle-1 b e, c) (call_handlers-colorings bs h after (colored e) t)
    | inr c ↦ rw (handle-1 b e, c) (call_handlers-colorings bs h after e t)
  ]

  handle-taken :
      (h : Sink) (e : Entry)
      → h.level ≡ 0
      → handle line h e ≡ (some (format line h.formatter e).0, (format line h.formatter e).1)
  unfolding handle
  handle-taken h e z =
      if_true (λ x. x ≡ (some (format line h.formatter e).0, (format line h.formatter e).1))
        (leb h.level e.levelno) _ _ (ground (arith, z)) refl

  -- Of every record, the file of the root logger gets a line with the colours of the console.
  pub configure_root_logger-colored :
      (py : Python) (config : LogConfig) (e : Entry)
      → call_handlers line (configure_root_logger py config).handlers e
        ≡ some (line config.format.console_format config.format.console_date_format (colored e))
          ∷ some (line config.format.file_format config.format.file_date_format (colored e))
          ∷ []
  unfolding call_handlers configure_root_logger create_console_handler create_file_handler format
  configure_root_logger-colored py config e =
      rw
        (
          handle-taken (create_console_handler config) e refl,
          handle-taken (create_file_handler py config) (colored e) refl,
        )
        refl
