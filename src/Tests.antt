-- ===== src/Tests.antt =====
-- Runs of the model on concrete inputs, one for each theorem with a premise or an argument.
mod Router
mod Policy
mod Filewriter
mod Gitignore
mod Remote
mod Apply
mod Manager
mod Handlers
mod Lsp
mod Config
