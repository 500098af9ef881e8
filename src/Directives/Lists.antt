-- ===== src/Directives/Lists.antt =====
-- co2_preprocessor/src/expr_eval.rs: the names that `__has_builtin` and `__has_attribute` know.
use Prim.Native.String.{String}
use co.Prelude.{Bool, false, ◌||◌, List, [], ◌∷◌, Bytes, codes, equal}

-- `matches!(name, "…" | …)`.
unfoldable pub one_of : List String → Bytes → Bool
one_of [] name = false
one_of (s ∷ ss) name = equal name (codes s) || one_of ss name

unfoldable pub is_supported_builtin : Bytes → Bool
unfolding one_of
is_supported_builtin =
    one_of ("__builtin_va_arg" ∷ "__builtin_types_compatible_p" ∷ "__builtin_offsetof" ∷ [])

-- Every attribute is listed bare and with two underscores on each side.
abbrev pub attributes : List String
attributes =
    "aligned" ∷ "__aligned__" ∷ "packed" ∷ "__packed__" ∷ "unused" ∷ "__unused__" ∷ "used"
    ∷ "__used__" ∷ "weak" ∷ "__weak__" ∷ "alias" ∷ "__alias__" ∷ "section" ∷ "__section__"
    ∷ "visibility" ∷ "__visibility__" ∷ "deprecated" ∷ "__deprecated__" ∷ "noreturn"
    ∷ "__noreturn__" ∷ "noinline" ∷ "__noinline__" ∷ "always_inline" ∷ "__always_inline__"
    ∷ "constructor" ∷ "__constructor__" ∷ "destructor" ∷ "__destructor__" ∷ "format" ∷ "__format__"
    ∷ "warn_unused_result" ∷ "__warn_unused_result__" ∷ "nonnull" ∷ "__nonnull__" ∷ "const"
    ∷ "__const__" ∷ "pure" ∷ "__pure__" ∷ "cold" ∷ "__cold__" ∷ "hot" ∷ "__hot__" ∷ "malloc"
    ∷ "__malloc__" ∷ "sentinel" ∷ "__sentinel__" ∷ "may_alias" ∷ "__may_alias__"
    ∷ "transparent_union" ∷ "__transparent_union__" ∷ "error" ∷ "__error__" ∷ "warning"
    ∷ "__warning__" ∷ "cleanup" ∷ "__cleanup__" ∷ "fallthrough" ∷ "__fallthrough__" ∷ "flatten"
    ∷ "__flatten__" ∷ "nonstring" ∷ "__nonstring__" ∷ "uninitialized" ∷ "__uninitialized__"
    ∷ "annotate" ∷ "__annotate__" ∷ "no_instrument_function" ∷ "__no_instrument_function__"
    ∷ "alloc_size" ∷ "__alloc_size__" ∷ "format_arg" ∷ "__format_arg__" ∷ "no_sanitize"
    ∷ "__no_sanitize__" ∷ "no_sanitize_address" ∷ "__no_sanitize_address__" ∷ "no_sanitize_thread"
    ∷ "__no_sanitize_thread__" ∷ "no_sanitize_undefined" ∷ "__no_sanitize_undefined__" ∷ "noclone"
    ∷ "__noclone__" ∷ "optimize" ∷ "__optimize__" ∷ "target" ∷ "__target__" ∷ "assume_aligned"
    ∷ "__assume_aligned__" ∷ "returns_nonnull" ∷ "__returns_nonnull__" ∷ "externally_visible"
    ∷ "__externally_visible__" ∷ "artificial" ∷ "__artificial__" ∷ "leaf" ∷ "__leaf__" ∷ "access"
    ∷ "__access__" ∷ "fd_arg" ∷ "__fd_arg__" ∷ "tls_model" ∷ "__tls_model__" ∷ []

unfoldable pub is_supported_attribute : Bytes → Bool
unfolding one_of
is_supported_attribute = one_of attributes
