-- ===== src/Logging/Filters.antt =====
-- flow_proxy_plugin/utils/log_filter.py, `setup_proxy_log_filters`: the filters of proxy.py's
-- loggers. `logging.getLogger` gives the same logger for the same name, which asks its filters
-- about every record that is logged on it.
use flow_proxy.Base.{
  ◌≡◌, refl, sym, ap, ◌∙◌, inl, inr, Bool, true, false, not, ◌&&◌, ◌||◌, Bool-cases, Option, none,
  some, List, [], ◌∷◌, ◌++◌, Text, codes, text_eq, ◌==◌, lookup, insert, lookup-insert,
  if◌then◌else◌, arith,
}
use flow_proxy.Logging.{LogRecord, broken_pipe_filter, proxy_noise_filter}

pub data Filter : Type 0 where
  broken_pipe proxy_noise : Filter

-- The filters of each logger that has some.
abbrev pub Filters : Type 0
Filters = List (Text × List Filter)

pub filters_of : Option (List Filter) → List Filter
filters_of none = []
filters_of (some fs) = fs

-- `logging.getLogger(name).addFilter(filter)`
pub add_filter : Text → Filter → Filters → Filters
unfolding filters_of
add_filter name f fs = insert name (filters_of (lookup name fs) ++ f ∷ []) fs

unfoldable pub setup_proxy_log_filters : Bool → Bool → Filters → Filters
unfolding add_filter
setup_proxy_log_filters suppress_broken_pipe suppress_proxy_noise fs =
    let piped =
      if suppress_broken_pipe then add_filter (codes "proxy.http.handler") broken_pipe fs else fs in
    if suppress_proxy_noise
    then add_filter (codes "proxy.http.server.web") proxy_noise piped
    else piped

lets : Filter → LogRecord → Bool
unfolding broken_pipe_filter proxy_noise_filter
lets broken_pipe r = broken_pipe_filter r
lets proxy_noise r = proxy_noise_filter r

all_let : List Filter → LogRecord → Bool
unfolding lets
all_let [] r = true
all_let (f ∷ fs) r = lets f r && all_let fs r

-- Whether a record passes the logger that it is logged on.
unfoldable pub passes : Filters → LogRecord → Bool
unfolding all_let filters_of
passes fs r = all_let (filters_of (lookup r.name fs)) r

all_let-append :
    (fs : List Filter) (f : Filter) (r : LogRecord)
    → all_let (fs ++ f ∷ []) r ≡ (all_let fs r && lets f r)
unfolding all_let
all_let-append [] f r = ground arith
all_let-append (g ∷ gs) f r = ground (arith, all_let-append gs f r)

-- On another logger the filter would let every record pass.
passes-add_filter :
    (name : Text) (f : Filter) (fs : Filters) (r : LogRecord)
    → ((name == r.name) ≡ false → lets f r ≡ true)
    → passes (add_filter name f fs) r ≡ (passes fs r && lets f r)
unfolding passes add_filter
passes-add_filter name f fs r other = elim (Bool-cases (name == r.name)) [
  | inl same ↦
      rw (lookup-insert name r.name (filters_of (lookup name fs) ++ f ∷ []) fs, same)
        (all_let-append (filters_of (lookup name fs)) f r
          ∙ ap (λ n. all_let (filters_of (lookup n fs)) r && lets f r)
              ((text_eq.test_iff name r.name).0 same))
  | inr apart ↦
      rw (lookup-insert name r.name (filters_of (lookup name fs) ++ f ∷ []) fs, apart)
        (ground (arith, other apart))
]

other_name : (a b : Text) → (a == b) ≡ false → (b == a) ≡ false
other_name a b n = elim (Bool-cases (b == a)) [
  | inl same ↦
      let z = (text_eq.test_iff a b).1 (sym ((text_eq.test_iff b a).0 same)) in cc (sym n ∙ z)
  | inr other ↦ other
]

handled :
    (fs : Filters) (r : LogRecord)
    → passes (add_filter (codes "proxy.http.handler") broken_pipe fs) r
      ≡ (passes fs r && broken_pipe_filter r)
unfolding lets
handled fs r =
    passes-add_filter (codes "proxy.http.handler") broken_pipe fs r
      (λ n. unfold broken_pipe_filter in rw (other_name (codes "proxy.http.handler") r.name n) refl)

served :
    (fs : Filters) (r : LogRecord)
    → passes (add_filter (codes "proxy.http.server.web") proxy_noise fs) r
      ≡ (passes fs r && proxy_noise_filter r)
unfolding lets
served fs r = passes-add_filter (codes "proxy.http.server.web") proxy_noise fs r (λ n.
    unfold proxy_noise_filter in rw (other_name (codes "proxy.http.server.web") r.name n) refl)

-- Whatever filters there are, `setup_proxy_log_filters` changes what passes any logger by exactly
-- the filters that it is asked for.
pub setup_proxy_log_filters-passes :
    (suppress_broken_pipe suppress_proxy_noise : Bool) (fs : Filters) (r : LogRecord)
    → passes (setup_proxy_log_filters suppress_broken_pipe suppress_proxy_noise fs) r ≡ (
        passes fs r
        && (not suppress_broken_pipe || broken_pipe_filter r)
        && (not suppress_proxy_noise || proxy_noise_filter r))
unfolding setup_proxy_log_filters
setup_proxy_log_filters-passes true true fs r =
    ground (arith, served (add_filter (codes "proxy.http.handler") broken_pipe fs) r, handled fs r)
setup_proxy_log_filters-passes true false fs r = ground (arith, handled fs r)
setup_proxy_log_filters-passes false true fs r = ground (arith, served fs r)
setup_proxy_log_filters-passes false false fs r = ground arith
