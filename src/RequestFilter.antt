-- ===== src/RequestFilter.antt =====
-- flow_proxy_plugin/plugins/request_filter.py: what is taken out of a request before it is forwarded.
-- `str.lower` is a parameter, and so are the JSON codec and the nested-property package.
pub mod Query
pub mod Rules
pub mod Body
pub mod Tests
